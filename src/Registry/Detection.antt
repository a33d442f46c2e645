-- ===== src/Registry/Detection.antt =====
-- src/middleware/registryState.ts and securityMiddleware.ts: what is detected of the tools after the
-- middleware has put a wrapper in the place of each handler.
use coreax.Prelude.{
  ℕ, String, Bool, true, false, not, Option, none, some, List, [], ◌∷◌, ◌==◌, num_eq, ◌≡◌, refl,
  sym, ap, ◌∙◌, subst, arith, is_some, inl, inr, map_get, map_get-map_set_same,
  map_get-map_set_other, All, map, eq_iff, eq_refl, Bool-cases,
}
use coreax.Registry.{
  Server, RegistryState, Tools, Tag, identity_hash, snapshot_parts, snapshot_registry_hash, changed,
  is_handler, current_hash, get_wrapped_handler_hash, detect_tool_runtime_changes,
  ToolRuntimeChanges, create_registry_state, initial_hash,
}
use coreax.Registry.Wrapped.{
  Wrapping, SetsEntry, is_new, is_new-map_set, Apart, AllApart, set_tag-same, set_tag-other,
  install_all, tag_of, wrapped_state, install_wrapped_tool-eq, snapshot_parts-map_set,
}

changed-same : (s : String) → changed (some s) s ≡ false
unfolding changed
changed-same s = ground (arith, eq_refl s)

abbrev pub report : (swap code server mutation : Bool) → ToolRuntimeChanges
report swap code server mutation = record {
  handler_swap_detected = swap;
  tool_code_changed = code;
  server_code_changed = server;
  registry_mutation = mutation;
}

changes_eq :
    {a b c d a' b' c' d' : Bool}
    → a ≡ a'
    → b ≡ b'
    → c ≡ c'
    → d ≡ d'
    → report a b c d ≡ report a' b' c' d'
changes_eq e f g h = cc

module _ (code_hash : Option ℕ → String) (sha256_hex : String → String) (server : Server)
    (never_empty : (h : ℕ) → (code_hash (some h) == "") ≡ false) (sets : SetsEntry server) where
  -- The entry of its name still holds its original, which the snapshot knows by its code, and no
  -- entry holds the wrapper.
  abbrev pub Installable : RegistryState → Wrapping → Type 0
  Installable s x =
      (map_get x.name s.tools ≡ some x.original)
      × (identity_hash code_hash sha256_hex (s.tags x.original) x.original
          ≡ code_hash (some x.original))
      × (is_new x.wrapped s.tools ≡ true)

  abbrev pub Installed : RegistryState → Wrapping → Type 0
  Installed s x =
      (map_get x.name s.tools ≡ some x.wrapped)
      × (s.tags x.wrapped ≡ tag_of code_hash sha256_hex server x.original)

  wrapped_state-Installable :
      (x y : Wrapping) (s : RegistryState)
      → Apart x y
      → Installable s y
      → Installable (wrapped_state code_hash sha256_hex server x s) y
  wrapped_state-Installable x y s (n, w, o) (there, same, new) = (
    map_get-map_set_other y.name x.name x.wrapped s.tools n ∙ there,
    ap (λ u. identity_hash code_hash sha256_hex u y.original)
          (set_tag-other x.wrapped y.original (tag_of code_hash sha256_hex server x.original) s.tags
            o)
        ∙ same,
    is_new-map_set y.wrapped x.wrapped x.name s.tools (ground arith) new,
  )

  All-Installable :
      (x : Wrapping) (ys : List Wrapping) (s : RegistryState)
      → All (Apart x) ys
      → All (Installable s) ys
      → All (Installable (wrapped_state code_hash sha256_hex server x s)) ys
  All-Installable x [] s a i = tt
  All-Installable x (y ∷ ys) s (a, as') (i, is) =
      (wrapped_state-Installable x y s a i, All-Installable x ys s as' is)

  wrapped_state-Installed :
      (x y : Wrapping) (s : RegistryState)
      → Apart x y
      → Installed s x
      → Installed (wrapped_state code_hash sha256_hex server y s) x
  wrapped_state-Installed x y s (n, w, o) (there, tagged) = (
    map_get-map_set_other x.name y.name y.wrapped s.tools
          (ground (arith, eq_iff x.name y.name, eq_iff y.name x.name))
        ∙ there,
    set_tag-other y.wrapped x.wrapped (tag_of code_hash sha256_hex server y.original) s.tags
          (ground arith)
        ∙ tagged,
  )

  install_all-Installed_kept :
      (now : ℕ) (x : Wrapping) (ys : List Wrapping) (s : RegistryState)
      → All (Apart x) ys
      → Installed s x
      → Installed (install_all code_hash sha256_hex server now ys s) x
  install_all-Installed_kept now x [] s a i = i
  install_all-Installed_kept now x (y ∷ ys) s (a, as') i =
      install_all-Installed_kept now x ys _ as' (
        subst (λ u. Installed u x)
          (sym (install_wrapped_tool-eq code_hash sha256_hex server never_empty sets y now s))
          (wrapped_state-Installed x y s a i))

  install_all-Installed :
      (now : ℕ) (xs : List Wrapping) (s : RegistryState)
      → AllApart xs
      → All (Installable s) xs
      → All (Installed (install_all code_hash sha256_hex server now xs s)) xs
  install_all-Installed now [] s a i = tt
  install_all-Installed now (x ∷ xs) s (a, as') (i, is) =
      subst (λ u. All (Installed (install_all code_hash sha256_hex server now xs u)) (x ∷ xs))
        (sym (install_wrapped_tool-eq code_hash sha256_hex server never_empty sets x now s))
        (
          install_all-Installed_kept now x xs (wrapped_state code_hash sha256_hex server x s) a (
            map_get-map_set_same x.name x.wrapped s.tools,
            set_tag-same x.wrapped (tag_of code_hash sha256_hex server x.original) s.tags,
          ),
          install_all-Installed now xs (wrapped_state code_hash sha256_hex server x s) as'
              (All-Installable x xs s a is),
        )

  -- What the installations leave as it is.
  abbrev Kept : RegistryState → RegistryState → Type 0
  Kept s t =
      (snapshot_parts code_hash sha256_hex t.tags t.tools
        ≡ snapshot_parts code_hash sha256_hex s.tags s.tools)
      × (t.initial_hashes ≡ s.initial_hashes)
      × (t.initial_snapshot ≡ s.initial_snapshot)
      × (t.mutation_attempted ≡ s.mutation_attempted)

  install_all-Kept :
      (now : ℕ) (xs : List Wrapping) (s : RegistryState)
      → AllApart xs
      → All (Installable s) xs
      → Kept s (install_all code_hash sha256_hex server now xs s)
  install_all-Kept now [] s a i = (refl, refl, refl, refl)
  install_all-Kept now (x ∷ xs) s (a, as') ((there, same, new), is) =
      let (p, h, d, m) =
        install_all-Kept now xs (wrapped_state code_hash sha256_hex server x s) as'
          (All-Installable x xs s a is) in
      subst (λ u. Kept s (install_all code_hash sha256_hex server now xs u))
        (sym (install_wrapped_tool-eq code_hash sha256_hex server never_empty sets x now s))
        (
          p
              ∙ snapshot_parts-map_set code_hash sha256_hex server never_empty sets x s.tags s.tools
                  there same new,
          h,
          d,
          m,
        )

  map_get-initial_hash :
      (k : String) (h : ℕ) (tools : Tools)
      → map_get k tools ≡ some h
      → map_get k (map (initial_hash code_hash sha256_hex) tools) ≡ some (code_hash (some h))
  unfolding initial_hash
  map_get-initial_hash k h [] e = cc
  map_get-initial_hash k h ((j, g) ∷ tools) e = elim (Bool-cases (j == k)) [
    | inl here ↦ rw here (ap (λ u. some (code_hash (some u))) (ground arith))
    | inr elsewhere ↦ rw elsewhere (map_get-initial_hash k h tools (rw elsewhere at e))
  ]

  -- What is reported of a tool: a swap for all objects but its wrapper, and nothing else.
  abbrev pub Unchanged : RegistryState → Wrapping → Type 0
  Unchanged s x =
      (expected : ℕ)
      → detect_tool_runtime_changes code_hash sha256_hex x.name expected s
        ≡ report (not (num_eq x.wrapped expected)) false false false

  current_hash-Installed :
      (x : Wrapping) (s : RegistryState)
      → Installed s x
      → current_hash code_hash sha256_hex s.tags (map_get x.name s.tools)
        ≡ code_hash (some x.original)
  unfolding current_hash get_wrapped_handler_hash
  current_hash-Installed x s (there, tagged) =
      ap (current_hash code_hash sha256_hex s.tags) there ∙ go
    where
      go : current_hash code_hash sha256_hex s.tags (some x.wrapped) ≡ code_hash (some x.original)
      go = rw (tagged, get_wrapped_handler_hash, current_hash) (rw (never_empty x.original) refl)

  Installed-Unchanged :
      (x : Wrapping) (s : RegistryState)
      → Installed s x
      → map_get x.name s.initial_hashes ≡ some (code_hash (some x.original))
      → snapshot_registry_hash code_hash sha256_hex s.tags s.tools ≡ s.initial_snapshot
      → s.mutation_attempted ≡ none
      → Unchanged s x
  unfolding detect_tool_runtime_changes is_handler
  Installed-Unchanged x s i h d m expected =
      changes_eq (ap (λ o. not (is_handler o expected)) i.0)
        (ap (λ o. changed o (current_hash code_hash sha256_hex s.tags (map_get x.name s.tools))) h
          ∙ ap (changed (some (code_hash (some x.original)))) (current_hash-Installed x s i)
          ∙ changed-same (code_hash (some x.original)))
        (rw d (rw (eq_refl s.initial_snapshot) refl)) (ap is_some m)

  All-Unchanged :
      (xs : List Wrapping) (s t : RegistryState)
      → All (Installed t) xs
      → Kept s t
      → All (Installable s) xs
      → s.initial_hashes ≡ map (initial_hash code_hash sha256_hex) s.tools
      → snapshot_registry_hash code_hash sha256_hex s.tags s.tools ≡ s.initial_snapshot
      → s.mutation_attempted ≡ none
      → All (Unchanged t) xs
  unfolding snapshot_registry_hash
  All-Unchanged [] s t i k o h d m = tt
  All-Unchanged (x ∷ xs) s t (i, is) (p, k, e, n) ((there, same, new), os) h d m = (
    Installed-Unchanged x t i
        (ap (map_get x.name) (k ∙ h) ∙ map_get-initial_hash x.name x.original s.tools there)
        (rw p (d ∙ sym e)) (n ∙ m),
    All-Unchanged xs s t is (p, k, e, n) os h d m,
  )

  -- Let the wrappers be objects of their own, put in the place of untagged handlers of a fresh
  -- registry under names of their own. Then every look at one of these tools afterwards reports no
  -- changed code of tool or server and no attempt at a change, and it reports a swap of the
  -- handler for any object that it is compared with but the wrapper itself, the original too.
  pub install_all-Unchanged :
      (now : ℕ) (xs : List Wrapping) (tags : ℕ → Tag) (tools : Tools)
      → AllApart xs
      → All (Installable (create_registry_state code_hash sha256_hex tags tools)) xs
      → All
          (Unchanged (
            install_all code_hash sha256_hex server now xs
              (create_registry_state code_hash sha256_hex tags tools)))
          xs
  unfolding create_registry_state
  install_all-Unchanged now xs tags tools a i =
      let s = create_registry_state code_hash sha256_hex tags tools in
      All-Unchanged xs s (install_all code_hash sha256_hex server now xs s)
        (install_all-Installed now xs s a i) (install_all-Kept now xs s a i) i refl refl refl
