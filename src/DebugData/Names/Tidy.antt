-- ===== src/DebugData/Names/Tidy.antt =====
-- The maps of names hold no empty list, so that the first name of an entry may be read.
use v6emul.Base.{
  ℕ, ◌<◌, ◌≡◌, refl, arith, Option, none, some, List, [], ◌∷◌, ◌++◌, length, Option-cases, inl, inr,
}
use v6emul.Base.Dict.{lookup, insert, remove, Values, Values-insert, Values-remove, Values-lookup}
use v6emul.DebugData.Names.{
  NameMap, set_names, add_name, replace_first, del_name, del_names, rename_name,
}
use Prim.Native.String.{String}
use v6emul.DebugData.Names.Refine.{Edit, set_all, add_one, del_one, del_all, rename, or_same, apply}

-- No address has an empty list.
Tidy : NameMap → Type 0
Tidy d = Values (λ ns. 0 < length ns) d

replace_first-some :
    (name new : String) (ns ms : List String)
    → replace_first name (new ∷ []) ns ≡ some ms
    → 0 < length ms
unfolding replace_first
replace_first-some name new [] ms h = ground arith
replace_first-some name new (n ∷ ns) [] h = elim (Option-cases (replace_first name (new ∷ []) ns)) [
  | inl e ↦ ground (arith, e)
  | inr (rest, e) ↦ ground (arith, e)
]
replace_first-some name new (n ∷ ns) (m ∷ ms) h = omega arith

put-Tidy : (k : ℕ) (ns : List String) (d : NameMap) → 0 < length ns → Tidy d → Tidy (insert k ns d)
unfolding Tidy
put-Tidy k ns d h v = Values-insert (λ ns. 0 < length ns) k ns d h v

cut-Tidy : (k : ℕ) (d : NameMap) → Tidy d → Tidy (remove k d)
unfolding Tidy
cut-Tidy k d v = Values-remove (λ ns. 0 < length ns) k d v

length-snoc : (ns : List String) (n : String) → 0 < length (ns ++ n ∷ [])
length-snoc [] n = omega arith
length-snoc (m ∷ ns) n = omega arith

add_name-Tidy : (k : ℕ) (name : String) (d : NameMap) → Tidy d → Tidy (add_name k name d)
unfolding add_name
add_name-Tidy k name d v = elim (Option-cases (lookup k d)) [
  | inl e ↦ rw (e, add_name) (put-Tidy k (name ∷ []) d (omega arith) v)
  | inr (ns, e) ↦ rw (e, add_name) (put-Tidy k (ns ++ name ∷ []) d (length-snoc ns name) v)
]

del_name-Tidy :
    (k : ℕ) (name : String) (d : NameMap) → Tidy d → Tidy (or_same d (del_name k name d))
unfolding del_name or_same
del_name-Tidy k name d v = elim (Option-cases (lookup k d)) [
  | inl e ↦ rw (e, del_name) v
  | inr (ns, e) ↦ found ns e (replace_first name [] ns) refl
]
  where
    found :
        (ns : List String)
        → lookup k d ≡ some ns
        → (r : Option (List String)) → replace_first name [] ns ≡ r
        → Tidy (or_same d (del_name k name d))
    found ns e none f = rw (e, del_name, f) v
    found ns e (some []) f = rw (e, del_name, f) (cut-Tidy k d v)
    found ns e (some (m ∷ ms)) f = rw (e, del_name, f) (put-Tidy k (m ∷ ms) d (omega arith) v)

del_names-Tidy : (k : ℕ) (d : NameMap) → Tidy d → Tidy (or_same d (del_names k d))
unfolding del_names or_same
del_names-Tidy k d v = elim (Option-cases (lookup k d)) [
  | inl e ↦ rw (e, del_names) v
  | inr (ns, e) ↦ rw (e, del_names) (cut-Tidy k d v)
]

rename_name-Tidy :
    (k : ℕ) (old new : String) (d : NameMap) → Tidy d → Tidy (or_same d (rename_name k old new d))
unfolding rename_name or_same
rename_name-Tidy k old new d v = elim (Option-cases (lookup k d)) [
  | inl e ↦ rw (e, rename_name) v
  | inr (ns, e) ↦ elim (Option-cases (replace_first old (new ∷ []) ns)) [
    | inl f ↦ rw (e, rename_name, f) v
    | inr (ms, f) ↦ rw (e, rename_name, f) (put-Tidy k ms d (replace_first-some old new ns ms f) v)
  ]
]

apply-Tidy : (e : Edit) (d : NameMap) → Tidy d → Tidy (apply e d)
unfolding apply set_names
apply-Tidy (set_all k []) d v = cut-Tidy k d v
apply-Tidy (set_all k (n ∷ ns)) d v = put-Tidy k (n ∷ ns) d (omega arith) v
apply-Tidy (add_one k name) d v = add_name-Tidy k name d v
apply-Tidy (del_one k name) d v = del_name-Tidy k name d v
apply-Tidy (del_all k) d v = del_names-Tidy k d v
apply-Tidy (rename k old new) d v = rename_name-Tidy k old new d v

-- a sequence of changes of the empty map
unfoldable pub apply_all : List Edit → NameMap
apply_all [] = []
apply_all (e ∷ es) = apply e (apply_all es)

apply_all-Tidy : (es : List Edit) → Tidy (apply_all es)
unfolding apply_all Tidy
apply_all-Tidy [] = tt
apply_all-Tidy (e ∷ es) = apply-Tidy e (apply_all es) (apply_all-Tidy es)

-- After any changes, the latest first, an address that the map holds has a name.
pub lookup-apply_all :
    (es : List Edit) (q : ℕ) (ns : List String) → lookup q (apply_all es) ≡ some ns → 0 < length ns
unfolding Tidy
lookup-apply_all es q ns h =
    Values-lookup (λ ns. 0 < length ns) q ns (apply_all es) (apply_all-Tidy es) h
