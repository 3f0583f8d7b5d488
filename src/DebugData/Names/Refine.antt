-- ===== src/DebugData/Names/Refine.antt =====
-- The maps of names as functions from addresses to lists, in which no address has an empty entry.
use v6emul.Base.{
  ℕ, ◌≡◌, refl, sym, ap, ◌∙◌, arith, Option, none, some, List, [], ◌∷◌, ◌++◌, if◌then◌else◌, ◌==◌,
  Option-cases, inl, inr, Bool-cases,
}
use v6emul.Base.Text.{same_text}
use v6emul.Base.Dict.{lookup, insert, remove, lookup-insert, lookup-remove}
use v6emul.DebugData.Names.{
  NameMap, set_names, add_name, replace_first, del_name, del_names, rename_name,
}
use Prim.Native.String.{String}

-- the changes of a map, one at a time
pub data Edit : Type 0 where
  set_all : ℕ → List String → Edit
  add_one : ℕ → String → Edit
  del_one : ℕ → String → Edit
  del_all : ℕ → Edit
  rename : ℕ → String → String → Edit

unfoldable pub or_same : NameMap → Option NameMap → NameMap
or_same d none = d
or_same d (some e) = e

unfoldable pub apply : Edit → NameMap → NameMap
unfolding or_same
apply (set_all addr ns) d = set_names addr ns d
apply (add_one addr name) d = add_name addr name d
apply (del_one addr name) d = or_same d (del_name addr name d)
apply (del_all addr) d = or_same d (del_names addr d)
apply (rename addr old new) d = or_same d (rename_name addr old new d)

-- the names of an address, none if it is not in the map
unfoldable pub names_of : NameMap → ℕ → List String
names_of d addr = elim (lookup addr d) [ none ↦ [] | some ns ↦ ns ]

-- a list with the first occurrence of a name replaced
unfoldable pub swap_first : String → List String → List String → List String
swap_first name new [] = []
swap_first name new (n ∷ ns) =
    let rest = swap_first name new ns in if same_text n name then new ++ ns else n ∷ rest

-- What a change makes of the list of its address.
unfoldable pub edited : Edit → List String → List String
edited (set_all addr ns) old = ns
edited (add_one addr name) old = old ++ name ∷ []
edited (del_one addr name) old = swap_first name [] old
edited (del_all addr) old = []
edited (rename addr name new) old = swap_first name (new ∷ []) old

abbrev pub address : Edit → ℕ
address (set_all addr ns) = addr
address (add_one addr name) = addr
address (del_one addr name) = addr
address (del_all addr) = addr
address (rename addr old new) = addr

names_of-insert :
    (k q : ℕ) (ns : List String) (d : NameMap)
    → names_of (insert k ns d) q ≡ (if k == q then ns else names_of d q)
unfolding names_of
names_of-insert k q ns d = ground (arith, lookup-insert k q ns d)

names_of-remove :
    (k q : ℕ) (d : NameMap) → names_of (remove k d) q ≡ (if k == q then [] else names_of d q)
unfolding names_of
names_of-remove k q d = ground (arith, lookup-remove k q d)

-- Nothing changes where the list of the address stays.
stays :
    (k q : ℕ) (ns : List String) (d : NameMap)
    → names_of d k ≡ ns
    → names_of d q ≡ (if k == q then ns else names_of d q)
stays k q ns d h = elim (Bool-cases (k == q)) [
  | inl e ↦ let same : k ≡ q = ground (arith, e) in rw e (ap (names_of d) (sym same) ∙ h)
  | inr e ↦ rw e refl
]

-- `replace_first` replaces as `swap_first` does, and finds nothing where nothing changes.
replace-none :
    (name : String) (new ns : List String)
    → replace_first name new ns ≡ none
    → swap_first name new ns ≡ ns
unfolding replace_first swap_first
replace-none name new [] h = refl
replace-none name new (n ∷ ns) h = ground (arith, replace-none name new ns)

replace-some :
    (name : String) (new ns ms : List String)
    → replace_first name new ns ≡ some ms
    → swap_first name new ns ≡ ms
unfolding replace_first swap_first
replace-some name new [] ms h = ground arith
replace-some name new (n ∷ ns) ms h = elim (Option-cases (replace_first name new ns)) [
  | inl e ↦ ground (arith, e)
  | inr (rest, e) ↦ ground (arith, e, replace-some name new ns rest e)
]

names_of-none : (d : NameMap) (k : ℕ) → lookup k d ≡ none → names_of d k ≡ []
unfolding names_of
names_of-none d k h = ground (arith, h)

names_of-some : (d : NameMap) (k : ℕ) (ns : List String) → lookup k d ≡ some ns → names_of d k ≡ ns
unfolding names_of
names_of-some d k ns h = ground (arith, h)

-- What the list of the address is changed to, when the change is known.
names_of-add :
    (k q : ℕ) (name : String) (d : NameMap)
    → names_of (add_name k name d) q ≡ (if k == q then names_of d k ++ name ∷ [] else names_of d q)
unfolding add_name
names_of-add k q name d = elim (Option-cases (lookup k d)) [
  | inl e ↦ rw (e, add_name, names_of-none d k e) (names_of-insert k q (name ∷ []) d)
  | inr (ns, e) ↦ rw (e, add_name, names_of-some d k ns e) (names_of-insert k q (ns ++ name ∷ []) d)
]

names_of-del_all :
    (k q : ℕ) (d : NameMap)
    → names_of (or_same d (del_names k d)) q ≡ (if k == q then [] else names_of d q)
unfolding del_names or_same
names_of-del_all k q d = elim (Option-cases (lookup k d)) [
  | inl e ↦ rw (e, del_names) (stays k q [] d (names_of-none d k e))
  | inr (ns, e) ↦ rw (e, del_names) (names_of-remove k q d)
]

names_of-del :
    (k q : ℕ) (name : String) (d : NameMap)
    → names_of (or_same d (del_name k name d)) q
      ≡ (if k == q then swap_first name [] (names_of d k) else names_of d q)
unfolding del_name or_same swap_first
names_of-del k q name d = elim (Option-cases (lookup k d)) [
  | inl e ↦ rw (e, del_name, names_of-none d k e) (stays k q [] d (names_of-none d k e))
  | inr (ns, e) ↦ found ns e (replace_first name [] ns) refl
]
  where
    found :
        (ns : List String)
        → lookup k d ≡ some ns
        → (r : Option (List String)) → replace_first name [] ns ≡ r
        → names_of (or_same d (del_name k name d)) q
          ≡ (if k == q then swap_first name [] (names_of d k) else names_of d q)
    found ns e none f =
        rw (e, del_name, f, names_of-some d k ns e, replace-none name [] ns f)
          (stays k q ns d (names_of-some d k ns e))
    found ns e (some []) f =
        rw (e, del_name, f, names_of-some d k ns e, replace-some name [] ns [] f)
          (names_of-remove k q d)
    found ns e (some (m ∷ ms)) f =
        rw (e, del_name, f, names_of-some d k ns e, replace-some name [] ns (m ∷ ms) f)
          (names_of-insert k q (m ∷ ms) d)

names_of-rename :
    (k q : ℕ) (old new : String) (d : NameMap)
    → names_of (or_same d (rename_name k old new d)) q
      ≡ (if k == q then swap_first old (new ∷ []) (names_of d k) else names_of d q)
unfolding rename_name or_same swap_first
names_of-rename k q old new d = elim (Option-cases (lookup k d)) [
  | inl e ↦ rw (e, rename_name, names_of-none d k e) (stays k q [] d (names_of-none d k e))
  | inr (ns, e) ↦ elim (Option-cases (replace_first old (new ∷ []) ns)) [
    | inl f ↦
        rw (e, rename_name, f, names_of-some d k ns e, replace-none old (new ∷ []) ns f)
          (stays k q ns d (names_of-some d k ns e))
    | inr (ms, f) ↦
        rw (e, rename_name, f, names_of-some d k ns e, replace-some old (new ∷ []) ns ms f)
          (names_of-insert k q ms d)
  ]
]

-- A map of labels or constants is a function from addresses to lists of names: setting, adding,
-- deleting and renaming change the list of their address, deleting and renaming at the first such
-- name, and no other list.
pub names_of-apply :
    (e : Edit) (d : NameMap) (q : ℕ)
    → names_of (apply e d) q
      ≡ (if address e == q then edited e (names_of d (address e)) else names_of d q)
unfolding apply edited set_names
names_of-apply (set_all k []) d q = names_of-remove k q d
names_of-apply (set_all k (n ∷ ns)) d q = names_of-insert k q (n ∷ ns) d
names_of-apply (add_one k name) d q = names_of-add k q name d
names_of-apply (del_one k name) d q = names_of-del k q name d
names_of-apply (del_all k) d q = names_of-del_all k q d
names_of-apply (rename k old new) d q = names_of-rename k q old new d
