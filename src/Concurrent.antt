-- ===== src/Concurrent.antt =====
-- `ConcurrentTransactionSend` of klayslave/account/account.go: one goroutine for each account, and
-- a channel with only so many places: a goroutine takes one before it starts, and gives it back after
-- its function has returned and before it ends.
pub mod Laws
mod Tests
use kaia_load_tester.Prelude.{
  ℕ, ◌+◌, ◌*◌, ◌<◌, ◌≡◌, List, [], ◌∷◌, ◌++◌, ◌==◌, if◌then◌else◌, length,
}

-- The channel's capacity; a `maxConcurrency` below zero is like zero.
abbrev pub capacity : ℕ → ℕ → ℕ
capacity num_cpu max_concurrency = if max_concurrency == 0 then num_cpu * 10 else max_concurrency

-- The accounts that the loop has not come to, those whose function runs, and those whose function
-- has returned; the number of goroutines whose function has returned and that still hold a place in
-- the channel, and of those that have given it back and have not ended.
pub record Sending {ℓ} (A : Type ℓ) : Type ℓ where
  pub waiting : List A
  pub running : List A
  pub sent : List A
  pub returned : ℕ
  pub released : ℕ

module _ {ℓ} {A : Type ℓ} where
  abbrev pub start : List A → Sending A
  start accs = record { waiting = accs; running = []; sent = []; returned = 0; released = 0 }

  -- The loop puts a place into the channel, which blocks while it is full, and starts a goroutine;
  -- a goroutine's function returns, the goroutine takes a place out, and at last it calls `wg.Done`.
  pub data Step (limit : ℕ) : Sending A → Sending A → Type ℓ where
    launches :
        {s : Sending A} (acc : A) (rest : List A)
        → s.waiting ≡ acc ∷ rest
        → length s.running + s.returned < limit
        → Step limit s (record {
          waiting = rest;
          running = acc ∷ s.running;
          sent = s.sent;
          returned = s.returned;
          released = s.released;
        })
    returns :
        {s : Sending A} (front : List A) (acc : A) (back : List A)
        → s.running ≡ front ++ acc ∷ back
        → Step limit s (record {
          waiting = s.waiting;
          running = front ++ back;
          sent = acc ∷ s.sent;
          returned = s.returned + 1;
          released = s.released;
        })
    releases :
        {s : Sending A} (k : ℕ)
        → s.returned ≡ k + 1
        → Step limit s (record {
          waiting = s.waiting;
          running = s.running;
          sent = s.sent;
          returned = k;
          released = s.released + 1;
        })
    ends :
        {s : Sending A} (k : ℕ)
        → s.released ≡ k + 1
        → Step limit s (record {
          waiting = s.waiting;
          running = s.running;
          sent = s.sent;
          returned = s.returned;
          released = k;
        })

  pub data Reach (limit : ℕ) (accs : List A) : Sending A → Type ℓ where
    here : Reach limit accs (start accs)
    next : {s t : Sending A} → Reach limit accs s → Step limit s t → Reach limit accs t

  -- `wg.Wait` returns.
  abbrev pub Finished : Sending A → Type ℓ
  Finished s = (s.waiting ≡ []) × (s.running ≡ []) × (s.returned ≡ 0) × (s.released ≡ 0)
