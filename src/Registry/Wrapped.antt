-- ===== src/Registry/Wrapped.antt =====
-- src/middleware/registryState.ts and securityMiddleware.ts: a wrapper in the place of a handler, and
-- the snapshot of the registry with it.
use coreax.Prelude.{
  ℕ, String, Bool, true, false, not, ◌&&◌, Option, none, some, List, [], ◌∷◌, ◌==◌, num_eq, ◌≡◌,
  refl, sym, ap, ◌∙◌, arith, ◌⊎◌, inl, inr, map_get, map_set, All, eq_iff, Bool-cases,
}
use coreax.Registry.{
  Server, RegistryState, Tools, Tag, guarded, install_wrapped_tool, set_wrapped,
  mark_wrapped_handler, identity_hash, snapshot_handler_identity, snapshot_parts, set_tag,
}

-- A wrapper that is to take the place of a handler under a name.
pub record Wrapping : Type 0 where
  pub name : String
  pub wrapped : ℕ
  pub original : ℕ

-- The server's own method, if it has one, sets the entry of the map.
abbrev pub SetsEntry : Server → Type 0
SetsEntry server =
    (server.set_tool ≡ none)
    ⊎ ((f : String → ℕ → Tools → Tools) × (server.set_tool ≡ some f)
        × ((name : String) (h : ℕ) (tools : Tools) → f name h tools ≡ map_set name h tools))

-- No entry holds this object.
abbrev pub is_new : ℕ → Tools → Bool
is_new h [] = true
is_new h ((k, g) ∷ tools) = not (num_eq h g) && is_new h tools

abbrev pub Apart : Wrapping → Wrapping → Type 0
Apart x y =
    ((x.name == y.name) ≡ false)
    × (num_eq x.wrapped y.wrapped ≡ false)
    × (num_eq x.wrapped y.original ≡ false)

abbrev pub AllApart : List Wrapping → Type 0
AllApart [] = Unit
AllApart (x ∷ xs) = All (Apart x) xs × AllApart xs

pub is_new-map_set :
    (g h : ℕ) (k : String) (tools : Tools)
    → num_eq g h ≡ false
    → is_new g tools ≡ true
    → is_new g (map_set k h tools) ≡ true
is_new-map_set g h k [] d n = ground arith
is_new-map_set g h k ((j, f) ∷ tools) d n = ground (arith, is_new-map_set g h k tools d)

cons_eq : {a b : String} {xs ys : List String} → a ≡ b → xs ≡ ys → a ∷ xs ≡ b ∷ ys
cons_eq e es = cc

num_eq_refl : (n : ℕ) → num_eq n n ≡ true
num_eq_refl n = ground arith

pub set_tag-same : (w : ℕ) (t : Tag) (tags : ℕ → Tag) → set_tag w t tags w ≡ t
unfolding set_tag
set_tag-same w t tags = rw (num_eq_refl w) refl

pub set_tag-other :
    (w h : ℕ) (t : Tag) (tags : ℕ → Tag) → num_eq w h ≡ false → set_tag w t tags h ≡ tags h
unfolding set_tag
set_tag-other w h t tags d = rw d refl

is_new-head :
    (w h : ℕ) (b : Bool) → (not (num_eq w h) && b) ≡ true → (num_eq w h ≡ false) × (b ≡ true)
is_new-head w h b n = (ground arith, ground arith)

module _ (code_hash : Option ℕ → String) (sha256_hex : String → String) (server : Server) where
  -- The loop over the tools.
  abbrev pub install_all : ℕ → List Wrapping → RegistryState → RegistryState
  install_all now [] s = s
  install_all now (x ∷ xs) s =
      install_all now xs
        (install_wrapped_tool code_hash sha256_hex server x.name x.wrapped x.original now s)

  abbrev pub tag_of : ℕ → Tag
  tag_of original = record { wrapper = true; handler_hash = some (code_hash (some original)) }

  abbrev pub wrapped_state : Wrapping → RegistryState → RegistryState
  wrapped_state x s = record s {
    tools = map_set x.name x.wrapped s.tools;
    tags = set_tag x.wrapped (tag_of x.original) s.tags;
    installing_wrapper = false;
  }

module _ (code_hash : Option ℕ → String) (sha256_hex : String → String) (server : Server)
    (never_empty : (h : ℕ) → (code_hash (some h) == "") ≡ false) (sets : SetsEntry server) where
  pub install_wrapped_tool-eq :
      (x : Wrapping) (now : ℕ) (s : RegistryState)
      → install_wrapped_tool code_hash sha256_hex server x.name x.wrapped x.original now s
        ≡ wrapped_state code_hash sha256_hex server x s
  unfolding install_wrapped_tool set_wrapped mark_wrapped_handler guarded
  install_wrapped_tool-eq x now s = elim sets [
    | inl without ↦
        rw without (elim (Bool-cases s.registry_frozen) [ inl t ↦ rw t refl | inr f ↦ rw f refl ])
    | inr (f, own, same) ↦ rw own (rw (same x.name x.wrapped s.tools) refl)
  ]

  identity_hash-tag_of :
      (w h : ℕ)
      → identity_hash code_hash sha256_hex (tag_of code_hash sha256_hex server h) w
        ≡ code_hash (some h)
  unfolding identity_hash
  identity_hash-tag_of w h = rw (never_empty h, identity_hash) refl

  -- The entry of a name is part of the snapshot by the digest of its handler alone.
  snapshot_handler_identity-eq :
      (k : String) (g h : ℕ) (tags tags' : ℕ → Tag)
      → identity_hash code_hash sha256_hex (tags' g) g
        ≡ identity_hash code_hash sha256_hex (tags h) h
      → snapshot_handler_identity code_hash sha256_hex tags' (k, g)
        ≡ snapshot_handler_identity code_hash sha256_hex tags (k, h)
  unfolding snapshot_handler_identity
  snapshot_handler_identity-eq k g h tags tags' e = rw e refl

  -- The entries that hold other objects keep their parts of the snapshot.
  snapshot_parts-set_tag :
      (w : ℕ) (t : Tag) (tags : ℕ → Tag) (tools : Tools)
      → is_new w tools ≡ true
      → snapshot_parts code_hash sha256_hex (set_tag w t tags) tools
        ≡ snapshot_parts code_hash sha256_hex tags tools
  unfolding snapshot_parts
  snapshot_parts-set_tag w t tags [] n = refl
  snapshot_parts-set_tag w t tags ((k, h) ∷ tools) n =
      let (other, rest) = is_new-head w h (is_new w tools) n in
      let kept =
        snapshot_handler_identity-eq k h h tags (set_tag w t tags)
          (ap (λ u. identity_hash code_hash sha256_hex u h) (set_tag-other w h t tags other)) in
      cons_eq kept (snapshot_parts-set_tag w t tags tools rest)

  pub snapshot_parts-map_set :
      (x : Wrapping) (tags : ℕ → Tag) (tools : Tools)
      → map_get x.name tools ≡ some x.original
      → identity_hash code_hash sha256_hex (tags x.original) x.original
        ≡ code_hash (some x.original)
      → is_new x.wrapped tools ≡ true
      → snapshot_parts code_hash sha256_hex
          (set_tag x.wrapped (tag_of code_hash sha256_hex server x.original) tags)
          (map_set x.name x.wrapped tools)
        ≡ snapshot_parts code_hash sha256_hex tags tools
  unfolding snapshot_parts
  snapshot_parts-map_set x tags [] there same n = cc
  snapshot_parts-map_set x tags ((k, h) ∷ tools) there same n =
      let (other, rest) = is_new-head x.wrapped h (is_new x.wrapped tools) n in
      elim (Bool-cases (k == x.name)) [
        | inl here ↦
            let e : k ≡ x.name = ground (arith, eq_iff k x.name) in
            let same_handler : h ≡ x.original = ground arith in
            let taken =
              snapshot_handler_identity-eq x.name x.wrapped x.original tags
                (set_tag x.wrapped (tag_of code_hash sha256_hex server x.original) tags)
                (ap (λ u. identity_hash code_hash sha256_hex u x.wrapped)
                    (set_tag-same x.wrapped (tag_of code_hash sha256_hex server x.original) tags)
                  ∙ identity_hash-tag_of x.wrapped x.original
                  ∙ sym same) in
            rw here (
              cons_eq (taken ∙ rw (e, same_handler) refl) (
                snapshot_parts-set_tag x.wrapped (tag_of code_hash sha256_hex server x.original)
                  tags tools rest))
        | inr elsewhere ↦
            let there' : map_get x.name tools ≡ some x.original = rw elsewhere at there in
            let kept =
              snapshot_handler_identity-eq k h h tags
                (set_tag x.wrapped (tag_of code_hash sha256_hex server x.original) tags)
                (ap (λ u. identity_hash code_hash sha256_hex u h)
                  (set_tag-other x.wrapped h (tag_of code_hash sha256_hex server x.original) tags
                    other)) in
            rw elsewhere (cons_eq kept (snapshot_parts-map_set x tags tools there' same rest))
      ]
