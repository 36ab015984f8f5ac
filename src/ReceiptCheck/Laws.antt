-- ===== src/ReceiptCheck/Laws.antt =====
-- What `getHash` of testcase/run_receipt_check.go gives out after calls of `addHash`.
use native.Mathlib.Nat.{mod-eq_of_lt, mod_self, mod-lt}
use kaia_load_tester.Prelude.{
  ℕ, ◌+◌, ◌%◌, ◌<◌, ◌≡◌, ◌≢◌, refl, sym, ap, subst, ◌∙◌, ◌⊎◌, inl, inr, Bool, true, false, some,
  List, [], ◌∷◌, if◌then◌else◌, ◌==◌, ==_iff, length, get_elem?, set, length-set, length-replicate,
  get_elem?-set_self, get_elem?-set_ne, arith, Bool-cases, ◌||◌,
}
use kaia_load_tester.ReceiptCheck.{HashPool, new_hash_pool, add_hash, get_hash}

-- The pool after so many additions, the last one first.
abbrev pub added : ℕ → List ℕ → HashPool
added size [] = new_hash_pool size
added size (hash ∷ hashes) = add_hash hash (added size hashes)

abbrev pub StandsIn : ℕ → List ℕ → Type 0
StandsIn a [] = ⊥
StandsIn a (x ∷ xs) = (x ≡ a) ⊎ StandsIn a xs

-- How far the pool is filled.
abbrev filled : HashPool → ℕ
filled p = if p.is_full then length p.hash_pool else p.tail

record Holds (size : ℕ) (hashes : List ℕ) (p : HashPool) : Type 0 where
  sized : length p.hash_pool ≡ size
  below : p.tail < size
  inside : (i : ℕ) → i < filled p → (h : ℕ) × (get_elem? p.hash_pool i ≡ some h) × StandsIn h hashes

room_left : (t n : ℕ) → t < n → (t + 1 == n) ≡ false → t + 1 < n
room_left t n h room = ground arith

next_tail :
    (t n : ℕ) → t < n → (((t + 1) % n ≡ t + 1) × (t + 1 < n)) ⊎ (((t + 1) % n ≡ 0) × (t + 1 ≡ n))
next_tail t n h = elim (Bool-cases (t + 1 == n)) [
  | inl full ↦
      inr (ap (λ m. m % n) ((==_iff (t + 1) n).0 full) ∙ mod_self n, (==_iff (t + 1) n).0 full)
  | inr room ↦ inl (mod-eq_of_lt (room_left t n h room), room_left t n h room)
]

differs : (i t : ℕ) → (i == t) ≡ false → i ≢ t
differs i t h = ground arith

-- A place that was filled before, or is filled now.
set_inside :
    (hash i t : ℕ) (hashes pool : List ℕ)
    → t < length pool
    → (i ≢ t → (h : ℕ) × (get_elem? pool i ≡ some h) × StandsIn h hashes)
    → (h : ℕ) × (get_elem? (set pool t hash) i ≡ some h) × StandsIn h (hash ∷ hashes)
set_inside hash i t hashes pool below old = elim (Bool-cases (i == t)) [
  | inl same ↦ (
    hash,
    subst (λ j. get_elem? (set pool t hash) j ≡ some hash) (sym ((==_iff i t).0 same))
        (get_elem?-set_self pool t hash below),
    inl refl,
  )
  | inr other ↦
      let ne = differs i t other in
      let (h, at, stands) = old ne in
      (h, get_elem?-set_ne pool t i hash (λ q. ne (sym q)) ∙ at, inr stands)
]

no_place : (i : ℕ) → i < 0 → ⊥
no_place i h = omega arith

-- What is filled after an addition was filled before, or is the place of the addition.
fills :
    (t n i m : ℕ) (full : Bool)
    → t < n
    → i ≢ t
    → ((m ≡ t + 1) × (t + 1 < n)) ⊎ ((m ≡ 0) × (t + 1 ≡ n))
    → i < (if (m == 0) || full then n else m)
    → i < (if full then n else t)
fills t n i m true below ne (inl (a, b)) h = ground arith
fills t n i m true below ne (inr (a, b)) h = ground arith
fills t n i m false below ne (inl (a, b)) h = ground arith
fills t n i m false below ne (inr (a, b)) h = ground arith

add_hash-Holds :
    (size hash : ℕ) (hashes : List ℕ) (p : HashPool)
    → Holds size hashes p
    → Holds size (hash ∷ hashes) (add_hash hash p)
unfolding add_hash
add_hash-Holds size hash hashes p v = record {
  sized = length-set p.hash_pool p.tail hash ∙ v.sized;
  below = omega (
    arith,
    v.below,
    v.sized,
    mod-lt (p.tail + 1) {m = length p.hash_pool} (omega (arith, v.below, v.sized)),
  );
  inside = λ i h.
      set_inside hash i p.tail hashes p.hash_pool (omega (arith, v.below, v.sized)) λ ne.
        v.inside i (
          fills p.tail (length p.hash_pool) i ((p.tail + 1) % length p.hash_pool) p.is_full
            (omega (arith, v.below, v.sized)) ne
            (next_tail p.tail (length p.hash_pool) (omega (arith, v.below, v.sized)))
            (subst
              (λ n. i < (
                if ((p.tail + 1) % length p.hash_pool == 0) || p.is_full
                then n
                else (p.tail + 1) % length p.hash_pool))
              (length-set p.hash_pool p.tail hash) h));
}

added-Holds : (size : ℕ) (hashes : List ℕ) → 0 < size → Holds size hashes (added size hashes)
added-Holds size [] h = record {
  sized = length-replicate size 0;
  below = h;
  inside = λ i below. absurd (no_place i below);
}
added-Holds size (hash ∷ hashes) h =
    add_hash-Holds size hash hashes (added size hashes) (added-Holds size hashes h)

or_false : (a b : Bool) → (a || b) ≡ false → a ≡ false
or_false true b h = h
or_false false b h = refl

positive : (n : ℕ) → (n == 0) ≡ false → 0 < n
positive n h = ground arith

-- After an addition something is filled.
add_hash-filled :
    (hash : ℕ) (p : HashPool)
    → (add_hash hash p).is_full ≡ false
    → ((add_hash hash p).tail == 0) ≡ false
unfolding add_hash
add_hash-filled hash p h = or_false ((p.tail + 1) % length p.hash_pool == 0) p.is_full h

-- Once a hash was added to a pool of any size above zero, `getHash` does not panic, and the hash
-- that it returns was added, however often the pool wrapped around.
pub get_hash-added :
    (size draw hash : ℕ) (hashes : List ℕ)
    → 0 < size
    → (h : ℕ) × (get_hash draw (added size (hash ∷ hashes)) ≡ some h) × StandsIn h (hash ∷ hashes)
unfolding get_hash
get_hash-added size draw hash hashes h =
    let p = added size (hash ∷ hashes) in
    let v = added-Holds size (hash ∷ hashes) h in
    elim (Bool-cases p.is_full) [
      | inl full ↦
          rw full (
            v.inside (draw % length p.hash_pool)
              (rw full (mod-lt draw (omega (arith, v.sized, h)))))
      | inr open_end ↦
          rw (open_end, add_hash-filled hash (added size hashes) open_end)
            (v.inside (draw % p.tail) (
              rw open_end (
                mod-lt draw (positive p.tail (add_hash-filled hash (added size hashes) open_end)))))
    ]
