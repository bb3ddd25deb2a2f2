-- ===== src/Kv/Table/Subscribers.antt =====
-- src/infra/db/nos_kv.c: the lists of subscribers that an entry has.
use codex_nos.Base.{
  ℕ, ◌≡◌, ◌≢◌, ◌++◌, refl, ap, true, false, All, List, [], ◌∷◌, if◌then◌else◌, arith, Bool-cases,
  inl, inr, Status, ok, err,
}
use codex_nos.Kv.Table.{Sub, has_sub, remove_sub, sub_eq}

pub remove_sub_absent : (ss : List Sub) (n a : ℕ) → has_sub ss n a ≡ false → remove_sub ss n a ≡ ss
unfolding has_sub remove_sub
remove_sub_absent [] n a h = refl
remove_sub_absent (s ∷ ss) n a h = ground (arith, remove_sub_absent ss n a)

-- A callback that is not in a list of subscribers.
abbrev pub Absent : Sub → List Sub → Type 0
Absent s ss = All (λ x. x ≢ s) ss

sub_eq_ne : (x : Sub) (n a : ℕ) → x ≢ record { notify = n; arg = a } → sub_eq x n a ≡ false
sub_eq_ne x n a h = elim (Bool-cases (sub_eq x n a)) [
  | inr f ↦ f
  | inl e ↦
      let p : x.notify ≡ n = ground arith in
      let q : x.arg ≡ a = ground arith in absurd (h (rw (← p, ← q) refl))
]

sub_eq_self : (n a : ℕ) → sub_eq (record { notify = n; arg = a }) n a ≡ true
sub_eq_self n a = ground arith

pub has_sub-Absent :
    (ss : List Sub) (n a : ℕ) → Absent (record { notify = n; arg = a }) ss → has_sub ss n a ≡ false
unfolding has_sub
has_sub-Absent [] n a h = refl
has_sub-Absent (s ∷ ss) n a h = rw (sub_eq_ne s n a h.0) (has_sub-Absent ss n a h.1)

pub has_sub_none : (n a : ℕ) → ◌≡◌ {A = Status} (if has_sub [] n a then ok else err) err
unfolding has_sub
has_sub_none n a = refl

pub has_sub-append :
    (xs ys : List Sub) (n a : ℕ) → has_sub (xs ++ record { notify = n; arg = a } ∷ ys) n a ≡ true
unfolding has_sub
has_sub-append [] ys n a = rw (sub_eq_self n a) refl
has_sub-append (x ∷ xs) ys n a = elim (Bool-cases (sub_eq x n a)) [
  | inl e ↦ rw e refl
  | inr e ↦ rw e (has_sub-append xs ys n a)
]

pub remove_sub-append :
    (xs ys : List Sub) (n a : ℕ)
    → Absent (record { notify = n; arg = a }) xs
    → remove_sub (xs ++ record { notify = n; arg = a } ∷ ys) n a ≡ xs ++ ys
unfolding remove_sub
remove_sub-append [] ys n a h = rw (sub_eq_self n a) refl
remove_sub-append (x ∷ xs) ys n a h =
    rw (sub_eq_ne x n a h.0) (ap (◌∷◌ x) (remove_sub-append xs ys n a h.1))

-- A list of subscribers either has the callback nowhere, or has a first place of it.
pub data Place (s : Sub) (ss : List Sub) : Type 0 where
  nowhere : Absent s ss → Place s ss
  behind : (xs ys : List Sub) → ss ≡ xs ++ s ∷ ys → Absent s xs → Place s ss

eq_of_sub_eq : (x : Sub) (n a : ℕ) → sub_eq x n a ≡ true → x ≡ record { notify = n; arg = a }
eq_of_sub_eq x n a e =
    let p : x.notify ≡ n = ground arith in let q : x.arg ≡ a = ground arith in rw (← p, ← q) refl

ne_of_sub_eq : (x : Sub) (n a : ℕ) → sub_eq x n a ≡ false → x ≢ record { notify = n; arg = a }
ne_of_sub_eq x n a e same =
    let self : sub_eq x n a ≡ true = rw same (sub_eq_self n a) in absurd (ground (arith, self, e))

Place-cons :
    (x : Sub) (ss : List Sub) (n a : ℕ)
    → x ≢ record { notify = n; arg = a }
    → Place (record { notify = n; arg = a }) ss
    → Place (record { notify = n; arg = a }) (x ∷ ss)
Place-cons x ss n a ne (Place.nowhere h) = Place.nowhere (ne, h)
Place-cons x ss n a ne (Place.behind xs ys e h) = Place.behind (x ∷ xs) ys (ap (◌∷◌ x) e) (ne, h)

pub place : (ss : List Sub) (n a : ℕ) → Place (record { notify = n; arg = a }) ss
place [] n a = Place.nowhere tt
place (x ∷ ss) n a = elim (Bool-cases (sub_eq x n a)) [
  | inl e ↦ Place.behind [] ss (ap (λ (y : Sub). y ∷ ss) (eq_of_sub_eq x n a e)) tt
  | inr e ↦ Place-cons x ss n a (ne_of_sub_eq x n a e) (place ss n a)
]
