-- ===== src/Value.antt =====
-- Values of the language where a source reads `unknown`: what `JSON.parse` gives, or a caller's
-- argument. A number is carried by its decimal text, `String(n)`, by which alone it is read.
use coreax.Prelude.{
  String, Bool, true, false, not, ◌||◌, Option, none, some, List, [], ◌∷◌, ◌==◌, if◌then◌else◌,
}
use Prim.Native.String
use coreax.Text.{trim}

mutual
  pub data Value : Type 0 where
    undefined null : Value
    bool : Bool → Value
    num str : String → Value
    array : Elements → Value
    object : Members → Value

  pub data Elements : Type 0 where
    no_elements : Elements
    element : Value → Elements → Elements

  pub data Members : Type 0 where
    no_members : Members
    member : String → Value → Members → Members

abbrev pub elements : Elements → List Value
elements no_elements = []
elements (element v vs) = v ∷ elements vs

-- `String(v ?? "")`; what `join` writes for an element too.
unfoldable mutual
  pub text : Value → String
  text undefined = ""
  text null = ""
  text (bool true) = "true"
  text (bool false) = "false"
  text (num n) = n
  text (str s) = s
  text (array vs) = join_text vs
  text (object fs) = "[object Object]"

  pub join_text : Elements → String
  join_text no_elements = ""
  join_text (element v vs) = Prim.Native.String.◌++◌ (text v) (join_rest vs)

  pub join_rest : Elements → String
  join_rest no_elements = ""
  join_rest (element v vs) =
      Prim.Native.String.◌++◌ "," (Prim.Native.String.◌++◌ (text v) (join_rest vs))

-- `v?.key` of an object; `undefined` for a missing key and for what is no object.
unfoldable pub lookup : String → Members → Value
lookup key no_members = undefined
lookup key (member k v fs) = if k == key then v else lookup key fs

unfoldable pub get : String → Value → Value
unfolding lookup
get key (object fs) = lookup key fs
get key v = undefined

-- `typeof v === "string" ? v.trim() || undefined : undefined`
unfoldable pub trimmed : Value → Option String
trimmed (str s) = let t = trim s in if t == "" then none else some t
trimmed _ = none

-- `v === word`
unfoldable pub is_text : String → Value → Bool
is_text word (str s) = s == word
is_text word _ = false

-- `v === true`
unfoldable pub is_true : Value → Bool
is_true (bool b) = b
is_true _ = false

-- Of the numbers 0 and NaN are false.
unfoldable pub truthy : Value → Bool
truthy undefined = false
truthy null = false
truthy (bool b) = b
truthy (num n) = not (n == "0" || n == "NaN")
truthy (str s) = not (s == "")
truthy _ = true
