-- ===== src/ReceiptCheck/Locking/Laws.antt =====
-- The waiting of goroutines that lock two accounts each by `doubleLock` of
-- testcase/run_receipt_check.go.
use kaia_load_tester.Prelude.{
  ℕ, zero, suc, ◌<◌, ◌≡◌, refl, ap, sym, subst, ◌⊎◌, inl, inr, List, [], ◌∷◌, ◌++◌, map, ◌==◌,
  ==_iff, ltb, Bool-cases, arith,
}
use kaia_load_tester.ReceiptCheck.Locking.{
  double_lock, Locker, In, starts, Free, Step, takes, gives_back, Reach, here, next,
}

abbrev Every : {A : Type 0} → (A → Type 0) → List A → Type 0
Every P [] = Unit {0}
Every P (x ∷ xs) = P x × Every P xs

abbrev Descends : List ℕ → Type 0
Descends [] = Unit {0}
Descends (m ∷ ms) = Every (λ k. k < m) ms × Descends ms

-- What a goroutine has yet to take is below what it holds, and goes down.
abbrev Ordered : Locker → Type 0
Ordered l = Descends l.wanted × Every (λ m. Every (λ k. k < m) l.wanted) l.held

Every-In : {A : Type 0} (P : A → Type 0) (xs : List A) (a : A) → Every P xs → In a xs → P a
Every-In P [] a p i = absurd i
Every-In P (x ∷ xs) a (p, ps) (inl e) = subst P e p
Every-In P (x ∷ xs) a (p, ps) (inr i) = Every-In P xs a ps i

Every-swap :
    {A : Type 0} (P : A → Type 0) (before after : List A) (a b : A)
    → (P a → P b)
    → Every P (before ++ a ∷ after)
    → Every P (before ++ b ∷ after)
Every-swap P [] after a b f (p, ps) = (f p, ps)
Every-swap P (x ∷ before) after a b f (p, ps) = (p, Every-swap P before after a b f ps)

starts-Ordered : (pair : ℕ × ℕ) → Ordered (starts pair)
unfolding double_lock
starts-Ordered (to, from) = elim (Bool-cases (from == to)) [
  | inl same ↦ rw same ((tt, tt), tt)
  | inr other ↦ elim (Bool-cases (ltb to from)) [
    | inl above ↦ rw (other, above) (((ground arith, tt), (tt, tt)), tt)
    | inr below ↦ rw (other, below) (((ground arith, tt), (tt, tt)), tt)
  ]
]

all_start : (pairs : List (ℕ × ℕ)) → Every Ordered (map starts pairs)
all_start [] = tt
all_start (pair ∷ pairs) = (starts-Ordered pair, all_start pairs)

nothing_wanted : (held : List ℕ) → Every (λ m. Every (λ k. k < m) []) held
nothing_wanted [] = tt
nothing_wanted (m ∷ held) = (tt, nothing_wanted held)

fewer_wanted :
    (m : ℕ) (rest held : List ℕ)
    → Every (λ h. Every (λ k. k < h) (m ∷ rest)) held
    → Every (λ h. Every (λ k. k < h) rest) held
fewer_wanted m rest [] p = tt
fewer_wanted m rest (h ∷ held) ((q, qs), ps) = (qs, fewer_wanted m rest held ps)

Reach-Ordered : (pairs : List (ℕ × ℕ)) {s : List Locker} → Reach pairs s → Every Ordered s
Reach-Ordered pairs here = all_start pairs
Reach-Ordered pairs (next r (takes before after m held rest free)) =
    Every-swap Ordered before after _ _
      (λ ((low, down), above). (down, (low, fewer_wanted m rest held above)))
      (Reach-Ordered pairs r)
Reach-Ordered pairs (next r (gives_back before after front back m)) =
    Every-swap Ordered before after _ _ (λ p. (tt, nothing_wanted (front ++ back)))
      (Reach-Ordered pairs r)

held_or_not : (m : ℕ) (ms : List ℕ) → In m ms ⊎ (¬ In m ms)
held_or_not m [] = inr λ i. i
held_or_not m (k ∷ ms) = elim (Bool-cases (k == m)) [
  | inl same ↦ inl (inl ((==_iff k m).0 same))
  | inr other ↦ elim (held_or_not m ms) [
    | inl there ↦ inl (inr there)
    | inr nowhere ↦
        inr λ i. elim i [ inl e ↦ let t = (==_iff k m).1 e in cc | inr later ↦ nowhere later ]
  ]
]

find_holder : (m : ℕ) (s : List Locker) → ((l : Locker) × In l s × In m l.held) ⊎ Free m s
find_holder m [] = inr λ l i. absurd i
find_holder m (l ∷ s) = elim (held_or_not m l.held) [
  | inl holds ↦ inl (l, inl refl, holds)
  | inr lacks ↦ elim (find_holder m s) [
    | inl (k, i, holds) ↦ inl (k, inr i, holds)
    | inr free ↦ inr λ k i. elim i [
      | inl e ↦ subst (λ (x : Locker). ¬ In m x.held) e lacks
      | inr later ↦ free k later
    ]
  ]
]

split_at :
    {A : Type 0} (a : A) (xs : List A)
    → In a xs
    → (before : List A) × (after : List A) × (xs ≡ before ++ a ∷ after)
split_at a [] i = absurd i
split_at a (x ∷ xs) (inl e) = ([], xs, subst (λ b. x ∷ xs ≡ b ∷ xs) e refl)
split_at a (x ∷ xs) (inr i) =
    let (before, after, q) = split_at a xs i in (x ∷ before, after, ap (λ ys. x ∷ ys) q)

-- A goroutine whose next mutex is free takes it; one that wants no more gives one back.
takes_next :
    (s : List Locker) (held rest : List ℕ) (m : ℕ)
    → In (record { held = held; wanted = m ∷ rest }) s
    → Free m s
    → (t : List Locker) × Step s t
takes_next s held rest m i free =
    let (before, after, q) = split_at (record { held = held; wanted = m ∷ rest }) s i in
    (
      before ++ record { held = m ∷ held; wanted = rest } ∷ after,
      subst (λ u. Step u (before ++ record { held = m ∷ held; wanted = rest } ∷ after)) (sym q)
          (takes before after m held rest (subst (Free m) q free)),
    )

gives_up :
    (s : List Locker) (held : List ℕ) (m : ℕ)
    → In (record { held = held; wanted = [] }) s
    → In m held
    → (t : List Locker) × Step s t
gives_up s held m i h =
    let (before, after, q) = split_at (record { held = held; wanted = [] }) s i in
    let (front, back, p) = split_at m held h in
    (
      before ++ record { held = front ++ back; wanted = [] } ∷ after,
      subst (λ u. Step u (before ++ record { held = front ++ back; wanted = [] } ∷ after)) (sym q)
          (subst
            (λ (ms : List ℕ).
              Step (before ++ record { held = ms; wanted = [] } ∷ after)
                (before ++ record { held = front ++ back; wanted = [] } ∷ after))
            (sym p) (gives_back before after front back m)),
    )

below_none : (m : ℕ) → m < 0 → ⊥
below_none m h = omega arith

nil_or_cons : (ms : List ℕ) → (ms ≡ []) ⊎ ((k : ℕ) × (ks : List ℕ) × (ms ≡ k ∷ ks))
nil_or_cons [] = inl refl
nil_or_cons (k ∷ ks) = inr (k, ks, refl)

-- Following the holder of a wanted mutex leads to a lower one, so it ends.
follow :
    (s : List Locker)
    → Every Ordered s
    → (n m : ℕ) (held rest : List ℕ) → m < n
    → In (record { held = held; wanted = m ∷ rest }) s
    → (t : List Locker) × Step s t
follow s o zero m held rest h i = absurd (below_none m h)
follow s o (suc n) m held rest h i = elim (find_holder m s) [
  | inr free ↦ takes_next s held rest m i free
  | inl (l, j, holds) ↦ elim (nil_or_cons l.wanted) [
    | inl q ↦
        gives_up s l.held m (subst (λ ws. In (record { held = l.held; wanted = ws }) s) q j) holds
    | inr (k, ks, q) ↦
        let placed = subst (λ ws. In (record { held = l.held; wanted = ws }) s) q j in
        let (down, above) =
          Every-In Ordered s (record { held = l.held; wanted = k ∷ ks }) o placed in
        let (low, lower) = Every-In (λ x. Every (λ y. y < x) (k ∷ ks)) l.held m above holds in
        follow s o n k l.held ks (omega (arith, low, h)) placed
  ]
]

-- However many goroutines lock two accounts each by `doubleLock`, and in whatever order their steps
-- come: as long as one of them still wants a mutex, some step is possible, so they are never
-- deadlocked.
pub no_deadlock :
    (pairs : List (ℕ × ℕ)) {s : List Locker} (held rest : List ℕ) (m : ℕ)
    → Reach pairs s
    → In (record { held = held; wanted = m ∷ rest }) s
    → (t : List Locker) × Step s t
no_deadlock pairs {s} held rest m r i =
    follow s (Reach-Ordered pairs r) (suc m) m held rest (omega arith) i
