-- ===== src/DebugData/Names.antt =====
-- The maps from addresses to lists of names, which `DebugData` keeps for labels and for constants
-- (libs/v6core/src/debug_data.cpp). A change that does not happen is `none`.
pub mod Refine
pub mod Tidy
use v6emul.Base.{
  ℕ, Bool, true, false, Option, none, some, List, [], ◌∷◌, ◌++◌, get_or, if◌then◌else◌,
}
use v6emul.Base.Text.{same_text, starts_local}
use v6emul.Base.Dict.{Dict, lookup, insert, remove}
use Prim.Native.String.{String}

abbrev pub NameMap : Type 0
NameMap = Dict (List String)

-- `SetLabels`, `SetConsts`
unfoldable pub set_names : ℕ → List String → NameMap → NameMap
set_names addr [] d = remove addr d
set_names addr (n ∷ ns) d = insert addr (n ∷ ns) d

-- `AddLabel`, `AddConst`
unfoldable pub add_name : ℕ → String → NameMap → NameMap
add_name addr name d = elim (lookup addr d) [
  | none ↦ insert addr (name ∷ []) d
  | some ns ↦ insert addr (ns ++ name ∷ []) d
]

-- `std::find` of the name: the list with its first occurrence replaced by other names
unfoldable pub replace_first : String → List String → List String → Option (List String)
replace_first name new [] = none
replace_first name new (n ∷ ns) =
    let rest = replace_first name new ns in
    if same_text n name
    then some (new ++ ns)
    else elim rest [ none ↦ none | some ms ↦ some (n ∷ ms) ]

-- `DelLabel`, `DelConst`: the address goes with its last name.
unfoldable pub del_name : ℕ → String → NameMap → Option NameMap
del_name addr name d = elim (lookup addr d) [
  | none ↦ none
  | some ns ↦ elim (replace_first name [] ns) [
    | none ↦ none
    | some [] ↦ some (remove addr d)
    | some (m ∷ ms) ↦ some (insert addr (m ∷ ms) d)
  ]
]

-- `DelLabels`, `DelConsts`
unfoldable pub del_names : ℕ → NameMap → Option NameMap
del_names addr d = elim (lookup addr d) [ none ↦ none | some ns ↦ some (remove addr d) ]

-- `RenameLabel`, `RenameConst`
unfoldable pub rename_name : ℕ → String → String → NameMap → Option NameMap
rename_name addr old new d = elim (lookup addr d) [
  | none ↦ none
  | some ns ↦ elim (replace_first old (new ∷ []) ns) [
    | none ↦ none
    | some ms ↦ some (insert addr ms d)
  ]
]

-- the loop of `GetLabels`: a name that begins with '@' goes to the end, another to the front
unfoldable pub order_labels : List String → List String → List String
order_labels [] labels = labels
order_labels (n ∷ ns) labels =
    order_labels ns (if starts_local n then labels ++ n ∷ [] else n ∷ labels)

-- `GetLabels`
unfoldable pub get_labels : ℕ → NameMap → Option (List String)
get_labels addr d = elim (lookup addr d) [ none ↦ none | some ns ↦ some (order_labels ns []) ]

unfoldable pub has_name : String → List String → Bool
has_name name [] = false
has_name name (n ∷ ns) = let rest = has_name name ns in if same_text n name then true else rest

-- `GetLabelAddr`, with `none` for -1
unfoldable pub get_label_addr : String → NameMap → Option ℕ
get_label_addr name [] = none
get_label_addr name ((addr, ns) ∷ d) =
    let rest = get_label_addr name d in if has_name name ns then some addr else rest
