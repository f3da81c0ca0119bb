-- ===== src/TypeSetup/Counted/Balance.antt =====
-- Each foreign type has as many references as are held and owned.
use pycallocs.Prelude.{
  ℕ, ◌+◌, ◌-◌, ◌≡◌, ◌≢◌, sym, ap, ◌∙◌, inl, inr, arith, Bool-cases, Option, none, some, List, [],
  ◌∷◌, ◌==◌, if◌then◌else◌,
}
use pycallocs.ForeignType.{
  Kind, void, base, composite, subprogram, address, array, enumeration, subrange, LookedIn,
  AllLookedIn, add_looked, get_next,
}
use pycallocs.TypeSetup.Objects.{ForeignTypeObject}
use pycallocs.TypeSetup.Typdict.{TypeEntry, ObjectTable, set_object}
use pycallocs.TypeSetup.Counted.{
  Counted, plus_ref, minus_ref, keep_all, drop_all, settle, enter_object, change_object,
}

abbrev pub is_type : Option ℕ → ℕ → ℕ
is_type none j = 0
is_type (some k) j = if j == k then 1 else 0

abbrev pub count : ℕ → List ℕ → ℕ
count j [] = 0
count j (k ∷ ks) = (if j == k then 1 else 0) + count j ks

abbrev pub count_results : ℕ → List (Option ℕ) → ℕ
count_results j [] = 0
count_results j (r ∷ rs) = is_type r j + count_results j rs

-- The references of each type are those that are held, and those that the callers own; a type that is
-- not in the table has none.
pub record IsCounted (owned : ℕ → ℕ) (s : Counted) : Type 0 where
  pub counted : (j : ℕ) → s.refs j ≡ owned j + count j s.holds
  pub absent : (j : ℕ) → s.table j ≡ none → s.refs j ≡ 0

abbrev pub Leaves : (ℕ → ℕ) → LookedIn Counted → Type 0
Leaves owned none = Unit
Leaves owned (some (s, r)) = IsCounted (λ j. owned j + is_type r j) s

abbrev pub LeavesAll : (ℕ → ℕ) → AllLookedIn Counted → Type 0
LeavesAll owned none = Unit
LeavesAll owned (some (s, rs)) = IsCounted (λ j. owned j + count_results j rs) s

count-keep_all :
    (j : ℕ) (rs : List (Option ℕ)) (ks : List ℕ)
    → count j (keep_all rs ks) ≡ count_results j rs + count j ks
count-keep_all j [] ks = omega arith
count-keep_all j (none ∷ rs) ks = omega (arith, count-keep_all j rs ks)
count-keep_all j (some k ∷ rs) ks = omega (arith, count-keep_all j rs ks)

drop_all_lem :
    (j : ℕ) (rs : List (Option ℕ)) (refs : ℕ → ℕ) → drop_all rs refs j ≡ refs j - count_results j rs
drop_all_lem j [] refs = omega arith
drop_all_lem j (none ∷ rs) refs = omega (arith, drop_all_lem j rs refs)
drop_all_lem j (some k ∷ rs) refs = let rest = drop_all_lem j rs (minus_ref k refs) in ground arith

pub IsCounted-same :
    (owned owned' : ℕ → ℕ) (s : Counted)
    → ((j : ℕ) → owned j ≡ owned' j)
    → IsCounted owned s
    → IsCounted owned' s
IsCounted-same owned owned' s same v = record {
  counted = λ j. omega (arith, v.counted j, same j);
  absent = v.absent;
}

keep_all-IsCounted :
    (owned : ℕ → ℕ) (rs : List (Option ℕ)) (s : Counted)
    → IsCounted (λ j. owned j + count_results j rs) s
    → IsCounted owned (record s { holds = keep_all rs s.holds })
keep_all-IsCounted owned rs s v = record {
  counted = λ j. omega (arith, v.counted j, count-keep_all j rs s.holds);
  absent = v.absent;
}

drop_all-IsCounted :
    (owned : ℕ → ℕ) (rs : List (Option ℕ)) (s : Counted)
    → IsCounted (λ j. owned j + count_results j rs) s
    → IsCounted owned (record s { refs = drop_all rs s.refs })
drop_all-IsCounted owned rs s v = record {
  counted = λ j. omega (arith, v.counted j, drop_all_lem j rs s.refs);
  absent = λ j lacking. omega (arith, v.absent j lacking, drop_all_lem j rs s.refs);
}

pub settle-IsCounted :
    (owned : ℕ → ℕ) (kind : Kind) (rs : List (Option ℕ)) (s : Counted)
    → IsCounted (λ j. owned j + count_results j rs) s
    → IsCounted owned (settle kind rs s)
unfolding settle
settle-IsCounted owned (array k) rs s v = drop_all-IsCounted owned rs s v
settle-IsCounted owned void rs s v = keep_all-IsCounted owned rs s v
settle-IsCounted owned (base t) rs s v = keep_all-IsCounted owned rs s v
settle-IsCounted owned (composite ks) rs s v = keep_all-IsCounted owned rs s v
settle-IsCounted owned subprogram rs s v = keep_all-IsCounted owned rs s v
settle-IsCounted owned (address k) rs s v = keep_all-IsCounted owned rs s v
settle-IsCounted owned enumeration rs s v = keep_all-IsCounted owned rs s v
settle-IsCounted owned subrange rs s v = keep_all-IsCounted owned rs s v

set_object-none :
    (k j : ℕ) (e : TypeEntry) (c : ObjectTable) → set_object k e c j ≡ none → (j ≢ k) × (c j ≡ none)
set_object-none k j e c eq = elim (Bool-cases (j == k)) [
  | inl here ↦ let never : some e ≡ none = simp here at eq in absurd cc
  | inr other ↦ (ground arith, simp other at eq)
]

pub change_object-IsCounted :
    (owned : ℕ → ℕ) (k : ℕ) (e : TypeEntry) (s : Counted)
    → IsCounted owned s
    → IsCounted owned (change_object k e s)
unfolding change_object
change_object-IsCounted owned k e s v = record {
  counted = v.counted;
  absent = λ j lacking. v.absent j (set_object-none k j e s.table lacking).1;
}

pub enter_object-IsCounted :
    (owned : ℕ → ℕ) (k : ℕ) (o : ForeignTypeObject) (s : Counted)
    → s.table k ≡ none
    → IsCounted owned s
    → IsCounted (λ j. owned j + is_type (some k) j) (enter_object k o s)
unfolding enter_object
enter_object-IsCounted owned k o s lacking v = record {
  counted = λ j.
      let all = v.counted j in
      let free = v.absent k lacking in let own = v.counted k in ground arith;
  absent = λ j none_there.
      let (ne, before) = set_object-none k j _ s.table none_there in
      let free = v.absent j before in ground arith;
}

pub share-IsCounted :
    (owned : ℕ → ℕ) (k : ℕ) (s : Counted) (e : TypeEntry)
    → s.table k ≡ some e
    → IsCounted owned s
    → IsCounted (λ j. owned j + is_type (some k) j) (record s { refs = plus_ref k s.refs })
share-IsCounted owned k s e there v = record {
  counted = λ j. let all = v.counted j in ground arith;
  absent = λ j lacking. elim (Bool-cases (j == k)) [
    | inl here ↦
        let same : j ≡ k = ground arith in
        let never : none ≡ some e = sym lacking ∙ ap s.table same ∙ there in absurd cc
    | inr other ↦ rw other (v.absent j lacking)
  ];
}

add_looked-LeavesAll :
    (owned : ℕ → ℕ) (r : Option ℕ) (x : AllLookedIn Counted)
    → LeavesAll (λ j. owned j + is_type r j) x
    → LeavesAll owned (add_looked r x)
unfolding add_looked
add_looked-LeavesAll owned r none v = tt
add_looked-LeavesAll owned r (some (s, rs)) v = IsCounted-same _ _ s (λ j. omega arith) v

pub get_next-LeavesAll :
    (owned : ℕ → ℕ) (x : LookedIn Counted) (rest : Counted → AllLookedIn Counted)
    → Leaves owned x
    → ((owned' : ℕ → ℕ) (s : Counted) → IsCounted owned' s → LeavesAll owned' (rest s))
    → LeavesAll owned (get_next x rest)
unfolding get_next
get_next-LeavesAll owned none rest v later = tt
get_next-LeavesAll owned (some (s, r)) rest v later =
    add_looked-LeavesAll owned r (rest s) (later (λ j. owned j + is_type r j) s v)
