-- ===== src/Scanner/Cache/Threads/Returns.antt =====
-- scanner.go: from wherever the goroutines are, their calls of `scan` return.
use binary.Prelude.{ℕ, zero, suc, ◌*◌, ◌≤◌, ◌≡◌, refl, ap, sym, ◌∙◌, arith, length, All, map}
use binary.Prelude.{List, [], ◌∷◌, ◌++◌, Option, none, some, length-append, length-map}
use binary.Base.{Result, ok, err, panic}
use binary.Codec.{Codec}
use binary.Scanner.Cache.{
  GoTypes, scan_anew, load, load_or_store, IsTable, load-IsTable, load_or_store-IsTable,
}
use binary.Scanner.Cache.Threads.{
  Thread, starting, scanned, finished, after_scan, after_load, step, step_at, run, IsThread,
  run-IsThread,
}

abbrev type_of : {T : Type 0} → Thread T → T
type_of (starting t) = t
type_of (scanned t c) = t
type_of (finished t r) = t

module _ {T : Type 0} (types : GoTypes T) where
  -- The call for a type past its return of what a scan from scratch does.
  abbrev pub returned : T → Thread T
  returned t = finished t (scan_anew types t)

  run-append :
      (xs ys : List ℕ) (threads : List (Thread T)) (table : List (T × Codec))
      → run types (xs ++ ys) threads table
        ≡ run types ys (run types xs threads table).0 (run types xs threads table).1
  unfolding run
  run-append [] ys threads table = refl
  run-append (i ∷ xs) ys threads table =
      run-append xs ys (step_at types i threads table).0 (step_at types i threads table).1

  -- Steps of the calls behind the first.
  run-later :
      (schedule : List ℕ) (thread : Thread T) (threads : List (Thread T)) (table : List (T × Codec))
      → run types (map suc schedule) (thread ∷ threads) table
        ≡ (thread ∷ (run types schedule threads table).0, (run types schedule threads table).1)
  unfolding run step_at
  run-later [] thread threads table = refl
  run-later (i ∷ schedule) thread threads table =
      run-later schedule thread (step_at types i threads table).0 (step_at types i threads table).1

  after_scan-type_of : (t : T) (r : Result Codec) → type_of (after_scan types t r) ≡ t
  unfolding after_scan
  after_scan-type_of t (ok c) = refl
  after_scan-type_of t (err x) = refl
  after_scan-type_of t panic = refl

  after_load-type_of : (t : T) (found : Option Codec) → type_of (after_load types t found) ≡ t
  unfolding after_load
  after_load-type_of t (some c) = refl
  after_load-type_of t none = after_scan-type_of t (scan_anew types t)

  step-type_of :
      (thread : Thread T) (table : List (T × Codec))
      → type_of (step types thread table).0 ≡ type_of thread
  unfolding step
  step-type_of (starting t) table = after_load-type_of t (load types t table)
  step-type_of (scanned t c) table = refl
  step-type_of (finished t r) table = refl

  step_at-type_of :
      (i : ℕ) (threads : List (Thread T)) (table : List (T × Codec))
      → map type_of (step_at types i threads table).0 ≡ map type_of threads
  unfolding step_at
  step_at-type_of i [] table = refl
  step_at-type_of zero (thread ∷ threads) table =
      ap (λ t. t ∷ map type_of threads) (step-type_of thread table)
  step_at-type_of (suc i) (thread ∷ threads) table =
      ap (λ ts. type_of thread ∷ ts) (step_at-type_of i threads table)

  run-type_of :
      (schedule : List ℕ) (threads : List (Thread T)) (table : List (T × Codec))
      → map type_of (run types schedule threads table).0 ≡ map type_of threads
  unfolding run
  run-type_of [] threads table = refl
  run-type_of (i ∷ schedule) threads table =
      run-type_of schedule (step_at types i threads table).0 (step_at types i threads table).1
      ∙ step_at-type_of i threads table

  -- Steps that the first call returns after, with a bound on their number.
  record Returns (most : ℕ) (thread : Thread T) (table : List (T × Codec)) : Type 0 where
    steps : List ℕ
    few : length steps ≤ most
    after : List (T × Codec)
    sound : IsTable types after
    done :
        (threads : List (Thread T))
        → run types steps (thread ∷ threads) table ≡ (returned (type_of thread) ∷ threads, after)

  finished-Returns :
      (most : ℕ) (t : T) (r : Result Codec) (table : List (T × Codec))
      → r ≡ scan_anew types t
      → IsTable types table
      → Returns most (finished t r) table
  unfolding run
  finished-Returns most t r table h k = record {
    steps = [];
    few = omega arith;
    after = table;
    sound = k;
    done = λ threads. rw h refl;
  }

  -- A first step, and the steps after it.
  step-Returns :
      (most : ℕ) (thread : Thread T) (table : List (T × Codec))
      → Returns most (step types thread table).0 (step types thread table).1
      → Returns (suc most) thread table
  unfolding run step_at
  step-Returns most thread table h = record {
    steps = 0 ∷ h.steps;
    few = omega (arith, h.few);
    after = h.after;
    sound = h.sound;
    done = λ threads.
        h.done threads ∙ ap (λ t. (returned t ∷ threads, h.after)) (step-type_of thread table);
  }

  scanned-Returns :
      (t : T) (c : Codec) (table : List (T × Codec))
      → scan_anew types t ≡ ok c
      → IsTable types table
      → Returns 1 (scanned t c) table
  unfolding step
  scanned-Returns t c table h k =
      let stored = load_or_store-IsTable types t c table h k in
      step-Returns 0 (scanned t c) table (
        finished-Returns 0 t (ok (load_or_store types t c table).0)
          (load_or_store types t c table).1 (ap (λ d. ok d) stored.0 ∙ sym h) stored.1)

  after_scan-Returns :
      (t : T) (r : Result Codec) (table : List (T × Codec))
      → scan_anew types t ≡ r
      → IsTable types table
      → Returns 1 (after_scan types t r) table
  unfolding after_scan
  after_scan-Returns t (ok c) table h k = scanned-Returns t c table h k
  after_scan-Returns t (err x) table h k = finished-Returns 1 t (err x) table (sym h) k
  after_scan-Returns t panic table h k = finished-Returns 1 t panic table (sym h) k

  after_load-Returns :
      (t : T) (found : Option Codec) (table : List (T × Codec))
      → ((c : Codec) → found ≡ some c → scan_anew types t ≡ ok c)
      → IsTable types table
      → Returns 1 (after_load types t found) table
  unfolding after_load
  after_load-Returns t (some c) table h k = finished-Returns 1 t (ok c) table (sym (h c refl)) k
  after_load-Returns t none table h k = after_scan-Returns t (scan_anew types t) table refl k

  thread-Returns :
      (thread : Thread T) (table : List (T × Codec))
      → IsThread types thread
      → IsTable types table
      → Returns 2 thread table
  unfolding step
  thread-Returns (starting t) table h k =
      step-Returns 1 (starting t) table (
        after_load-Returns t (load types t table) table (λ c e. load-IsTable types t c table k e) k)
  thread-Returns (scanned t c) table h k =
      let one = scanned-Returns t c table h k in
      record {
        steps = one.steps;
        few = omega (arith, one.few);
        after = one.after;
        sound = one.sound;
        done = one.done;
      }
  thread-Returns (finished t r) table h k = finished-Returns 2 t r table h k

  -- The calls one after the other.
  drain :
      (threads : List (Thread T)) (table : List (T × Codec))
      → All (IsThread types) threads
      → IsTable types table
      → (more : List ℕ) × (length more ≤ 2 * length threads)
        × ((run types more threads table).0 ≡ map returned (map type_of threads))
  unfolding run
  drain [] table h k = ([], omega arith, refl)
  drain (thread ∷ threads) table h k =
      let head = thread-Returns thread table h.0 k in
      let (more, few, done) = drain threads head.after h.1 head.sound in
      (
        head.steps ++ map suc more,
        rw (length-append head.steps (map suc more), length-map suc more)
            (omega (arith, head.few, few)),
        rw (
          run-append head.steps (map suc more) (thread ∷ threads) table,
          head.done threads,
          run-later more (returned (type_of thread)) threads head.after,
          done,
        ),
      )

  map-type_of : (ts : List T) → map type_of (map (λ t. starting t) ts) ≡ ts
  map-type_of [] = refl
  map-type_of (t ∷ ts) = ap (λ us. t ∷ us) (map-type_of ts)

  starting-IsThread : (ts : List T) → All (IsThread types) (map (λ t. starting t) ts)
  starting-IsThread [] = tt
  starting-IsThread (t ∷ ts) = (tt, starting-IsThread ts)

  length-run :
      (schedule : List ℕ) (ts : List T) (table : List (T × Codec))
      → length (run types schedule (map (λ t. starting t) ts) table).0 ≡ length ts
  length-run schedule ts table =
      sym (length-map type_of (run types schedule (map (λ t. starting t) ts) table).0)
      ∙ ap length (run-type_of schedule (map (λ t. starting t) ts) table ∙ map-type_of ts)

  -- Calls of scan for any types are started in several goroutines, with a table of which every entry is what
  -- the scan of its type returns. Whatever steps they have made, in whatever order, two more steps for
  -- each call at most are enough for every call to return, and each has then returned what a scan of its
  -- own type from scratch does. A scan from scratch is one that ends, as it does for the types of the model.
  pub run-returns :
      (schedule : List ℕ) (ts : List T) (table : List (T × Codec))
      → IsTable types table
      → (more : List ℕ) × (length more ≤ 2 * length ts)
        × ((run types (schedule ++ more) (map (λ t. starting t) ts) table).0 ≡ map returned ts)
  run-returns schedule ts table k =
      let start : List (Thread T) = map (λ t. starting t) ts in
      let here = run types schedule start table in
      let (threads, kept) = run-IsThread types schedule start table (starting-IsThread ts) k in
      let (more, few, done) = drain here.0 here.1 threads kept in
      (
        more,
        omega (arith, few, length-run schedule ts table),
        rw (run-append schedule more start table)
            (done ∙ ap (map returned) (run-type_of schedule start table ∙ map-type_of ts)),
      )
