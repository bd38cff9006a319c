-- ===== src/Scanner/Cache/Threads.antt =====
-- scanner.go: `scan` in several goroutines at once. What a goroutine does between two calls of the
-- table is its own; a call of the table is one step.
use binary.Prelude.{ℕ, zero, suc, ◌+◌, ◌*◌, ◌≤◌, ◌<◌, ◌≡◌, refl, sym, ap, ◌∙◌, arith, length, All}
pub mod Returns
use binary.Prelude.{List, [], ◌∷◌, Option, none, some}
use binary.Base.{Result, ok, err, panic}
use binary.Codec.{Codec}
use binary.Scanner.Cache.{
  GoTypes, scan_anew, load, load_or_store, IsTable, load-IsTable, load_or_store-IsTable,
}

-- Where a call of `scan` is: before `Load`, between a scan that succeeded and `LoadOrStore`, or past
-- its return.
pub data Thread (T : Type 0) : Type 0 where
  starting : T → Thread T
  scanned : T → Codec → Thread T
  finished : T → Result Codec → Thread T

module _ {T : Type 0} (types : GoTypes T) where
  pub after_scan : T → Result Codec → Thread T
  after_scan t (ok c) = scanned t c
  after_scan t (err x) = finished t (err x)
  after_scan t panic = finished t panic

  pub after_load : T → Option Codec → Thread T
  unfolding after_scan
  after_load t (some c) = finished t (ok c)
  after_load t none = after_scan t (scan_anew types t)

  -- The next step of a call.
  pub step : Thread T → List (T × Codec) → Thread T × List (T × Codec)
  unfolding after_load
  step (starting t) table = (after_load t (load types t table), table)
  step (scanned t c) table =
      (finished t (ok (load_or_store types t c table).0), (load_or_store types t c table).1)
  step (finished t r) table = (finished t r, table)

  -- A step of the call at a place, and the steps of a schedule.
  unfoldable pub step_at :
      ℕ → List (Thread T) → List (T × Codec) → List (Thread T) × List (T × Codec)
  unfolding step
  step_at i [] table = ([], table)
  step_at zero (thread ∷ threads) table = ((step thread table).0 ∷ threads, (step thread table).1)
  step_at (suc i) (thread ∷ threads) table =
      (thread ∷ (step_at i threads table).0, (step_at i threads table).1)

  pub run : List ℕ → List (Thread T) → List (T × Codec) → List (Thread T) × List (T × Codec)
  unfolding step_at
  run [] threads table = (threads, table)
  run (i ∷ schedule) threads table =
      let next = step_at i threads table in run schedule next.0 next.1

  -- What is known of a call at each place.
  abbrev pub IsThread : Thread T → Type 0
  IsThread (starting t) = Unit {0}
  IsThread (scanned t c) = scan_anew types t ≡ ok c
  IsThread (finished t r) = r ≡ scan_anew types t

  after_scan-IsThread :
      (t : T) (r : Result Codec) → scan_anew types t ≡ r → IsThread (after_scan t r)
  unfolding after_scan
  after_scan-IsThread t (ok c) h = h
  after_scan-IsThread t (err x) h = sym h
  after_scan-IsThread t panic h = sym h

  pub after_load-IsThread :
      (t : T) (found : Option Codec)
      → ((c : Codec) → found ≡ some c → scan_anew types t ≡ ok c)
      → IsThread (after_load t found)
  unfolding after_load
  after_load-IsThread t (some c) h = sym (h c refl)
  after_load-IsThread t none h = after_scan-IsThread t (scan_anew types t) refl

  pub step-IsThread :
      (thread : Thread T) (table : List (T × Codec))
      → IsThread thread
      → IsTable types table
      → IsThread (step thread table).0 × IsTable types (step thread table).1
  unfolding step
  step-IsThread (starting t) table h k =
      (after_load-IsThread t (load types t table) (λ c e. load-IsTable types t c table k e), k)
  step-IsThread (scanned t c) table h k =
      let stored = load_or_store-IsTable types t c table h k in
      (ap (λ d. ok d) stored.0 ∙ sym h, stored.1)
  step-IsThread (finished t r) table h k = (h, k)

  step_at-IsThread :
      (i : ℕ) (threads : List (Thread T)) (table : List (T × Codec))
      → All IsThread threads
      → IsTable types table
      → All IsThread (step_at i threads table).0 × IsTable types (step_at i threads table).1
  unfolding step_at
  step_at-IsThread i [] table h k = (tt, k)
  step_at-IsThread zero (thread ∷ threads) table h k =
      let after = step-IsThread thread table h.0 k in ((after.0, h.1), after.1)
  step_at-IsThread (suc i) (thread ∷ threads) table h k =
      let after = step_at-IsThread i threads table h.1 k in ((h.0, after.0), after.1)

  -- However the steps of calls of scan in several goroutines are interleaved, from a table of which every
  -- entry is what the scan of its type returns: every call that has returned has returned what a
  -- scan from scratch does, and the table is still such a table.
  pub run-IsThread :
      (schedule : List ℕ) (threads : List (Thread T)) (table : List (T × Codec))
      → All IsThread threads
      → IsTable types table
      → All IsThread (run schedule threads table).0 × IsTable types (run schedule threads table).1
  unfolding run
  run-IsThread [] threads table h k = (h, k)
  run-IsThread (i ∷ schedule) threads table h k =
      let after = step_at-IsThread i threads table h k in
      run-IsThread schedule (step_at i threads table).0 (step_at i threads table).1 after.0 after.1

  -- The steps that a call has still to make, at most.
  abbrev pub left : Thread T → ℕ
  left (starting t) = 2
  left (scanned t c) = 1
  left (finished t r) = 0

  abbrev all_left : List (Thread T) → ℕ
  all_left [] = 0
  all_left (thread ∷ threads) = left thread + all_left threads

  -- A schedule that gives no step to a call that has returned.
  abbrev pub left_at : ℕ → List (Thread T) → ℕ
  left_at i [] = 0
  left_at zero (thread ∷ threads) = left thread
  left_at (suc i) (thread ∷ threads) = left_at i threads

  abbrev pub IsActive : List ℕ → List (Thread T) → List (T × Codec) → Type 0
  IsActive [] threads table = Unit {0}
  IsActive (i ∷ schedule) threads table =
      (0 < left_at i threads)
      × IsActive schedule (step_at i threads table).0 (step_at i threads table).1

  after_scan-left : (t : T) (r : Result Codec) → left (after_scan t r) ≤ 1
  unfolding after_scan
  after_scan-left t (ok c) = omega arith
  after_scan-left t (err x) = omega arith
  after_scan-left t panic = omega arith

  after_load-left : (t : T) (found : Option Codec) → left (after_load t found) ≤ 1
  unfolding after_load
  after_load-left t (some c) = omega arith
  after_load-left t none = after_scan-left t (scan_anew types t)

  step-left :
      (thread : Thread T) (table : List (T × Codec))
      → 0 < left thread
      → left (step thread table).0 < left thread
  unfolding step
  step-left (starting t) table h = omega (arith, after_load-left t (load types t table))
  step-left (scanned t c) table h = omega arith
  step-left (finished t r) table h = absurd (omega arith)

  step_at-left :
      (i : ℕ) (threads : List (Thread T)) (table : List (T × Codec))
      → 0 < left_at i threads
      → all_left (step_at i threads table).0 < all_left threads
  unfolding step_at
  step_at-left i [] table h = absurd (omega arith)
  step_at-left zero (thread ∷ threads) table h = omega (arith, step-left thread table h)
  step_at-left (suc i) (thread ∷ threads) table h = omega (arith, step_at-left i threads table h)

  schedule-left :
      (schedule : List ℕ) (threads : List (Thread T)) (table : List (T × Codec))
      → IsActive schedule threads table
      → length schedule ≤ all_left threads
  schedule-left [] threads table h = omega arith
  schedule-left (i ∷ schedule) threads table h = omega (
    arith,
    step_at-left i threads table h.0,
    schedule-left schedule (step_at i threads table).0 (step_at i threads table).1 h.1,
  )

  left-le : (thread : Thread T) → left thread ≤ 2
  left-le (starting t) = omega arith
  left-le (scanned t c) = omega arith
  left-le (finished t r) = omega arith

  all_left-le : (threads : List (Thread T)) → all_left threads ≤ 2 * length threads
  all_left-le [] = omega arith
  all_left-le (thread ∷ threads) = omega (arith, left-le thread, all_left-le threads)

  -- No schedule that gives its steps to calls of scan that have not returned is longer than two steps for
  -- each call: none of them waits for another.
  length-schedule :
      (schedule : List ℕ) (threads : List (Thread T)) (table : List (T × Codec))
      → IsActive schedule threads table
      → length schedule ≤ 2 * length threads
  length-schedule schedule threads table h =
      omega (arith, schedule-left schedule threads table h, all_left-le threads)
