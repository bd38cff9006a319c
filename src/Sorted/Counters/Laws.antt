-- ===== src/Sorted/Counters/Laws.antt =====
-- `tczCodec` against its wire format.
use binary.Prelude.{ℕ, suc, ◌/◌, ◌*◌, ◌≤◌, ◌≡◌, refl, sym, ap, ◌∙◌, arith, length, All, ◌==◌, true}
use binary.Prelude.{
  List, [], ◌∷◌, ◌++◌, append_assoc, append-nil, length-append, le→ltb_false, Bool-cases, inl, inr,
}
use binary.Prelude.{zero, get_elem?, Option, none, some}
use binary.Base.{ok, IsU64}
use binary.Varint.{uvarint_bytes}
use binary.Encoder.{Encoder, write}
use binary.Encoder.Laws.{write-write, write_uvarint_lem}
use binary.Stream.{max_int}
use binary.Decoder.Laws.{Origin, holding, slice-holding}
use binary.Decoder.Checks.{read_count-holding}
use binary.Sorted.{append_uint_deltas, is_sorted}
use binary.Sorted.Deltas.{read_delta-append_uint_deltas}
use binary.Sorted.Laws.{length-uint_deltas_le}
use binary.Sorted.Timestamps.{length-append_uint_deltas}
use mathlib.Core.List.{Perm}
use mathlib.Core.List.Perm
use binary.Sorted.Counters.Pairs.{pairs, exchange-Perm}
use binary.Sorted.Counters.{
  TimeCounters, put_at, exchange, swap, swap_all, by_time, encode_counters, read_both,
  decode_counters,
}

abbrev body : TimeCounters → List ℕ
body s = append_uint_deltas 0 s.times ++ append_uint_deltas 0 s.counters

abbrev wire_counters : TimeCounters → List ℕ
wire_counters s = uvarint_bytes (length s.times) ++ (uvarint_bytes (length (body s)) ++ body s)

-- As many counters as times, each of 64 bits.
abbrev pub IsSeries : TimeCounters → Type 0
IsSeries s = (length s.times ≡ length s.counters) × All IsU64 s.times × All IsU64 s.counters

read_both-body : (s : TimeCounters) → IsSeries s → (read_both (length s.times) (body s)).0 ≡ ok s
unfolding read_both
read_both-body s (same, ts, vs) =
    let second = read_delta-append_uint_deltas 0 s.counters [] (omega arith) vs in
    rw (
      read_delta-append_uint_deltas 0 s.times (append_uint_deltas 0 s.counters) (omega arith) ts,
      same,
      rw append-nil at second,
    )

decode_counters_lem :
    (s : TimeCounters) (k : Origin) (front rest : List ℕ)
    → IsSeries s
    → 20 * length s.times ≤ max_int / 2
    → decode_counters (holding k front (wire_counters s ++ rest))
      ≡ (ok s, holding k (front ++ wire_counters s) rest)
unfolding decode_counters
decode_counters_lem s k front rest h g =
    let b : List ℕ = body s in
    let n = length s.times in
    let front' : List ℕ = front ++ uvarint_bytes n in
    let small : length b ≤ 20 * n =
      rw (length-append (append_uint_deltas 0 s.times) (append_uint_deltas 0 s.counters))
        (omega (arith, length-uint_deltas_le 0 s.times, length-uint_deltas_le 0 s.counters, h.0)) in
    let enough : n ≤ length b / 2 =
      rw (length-append (append_uint_deltas 0 s.times) (append_uint_deltas 0 s.counters)) (
        omega (
          arith,
          length-append_uint_deltas 0 s.times,
          length-append_uint_deltas 0 s.counters,
          h.0,
        )) in
    rw (
      append_assoc,
      append_assoc,
      read_count-holding k n front (uvarint_bytes (length b) ++ (b ++ rest)) (omega arith),
      read_count-holding k (length b) front' (b ++ rest) (omega arith),
      le→ltb_false (length b / 2) n enough,
      slice-holding k b (front' ++ uvarint_bytes (length b)) rest (omega arith),
      read_both-body s h,
      append_assoc,
      append_assoc,
    )

length-put_at : (i x : ℕ) (xs : List ℕ) → length (put_at i x xs) ≡ length xs
unfolding put_at
length-put_at i x [] = refl
length-put_at zero x (y ∷ ys) = refl
length-put_at (suc i) x (y ∷ ys) = ap suc (length-put_at i x ys)

All-put_at : (P : ℕ → Type 0) (i x : ℕ) (xs : List ℕ) → P x → All P xs → All P (put_at i x xs)
unfolding put_at
All-put_at P i x [] h g = tt
All-put_at P zero x (y ∷ ys) h g = (h, g.1)
All-put_at P (suc i) x (y ∷ ys) h g = (g.0, All-put_at P i x ys h g.1)

abbrev pub Holds : (ℕ → Type 0) → Option ℕ → Type 0
Holds P none = Unit {0}
Holds P (some x) = P x

pub get_elem?-Holds : (P : ℕ → Type 0) (i : ℕ) (xs : List ℕ) → All P xs → Holds P (get_elem? xs i)
get_elem?-Holds P i [] h = tt
get_elem?-Holds P zero (x ∷ xs) h = h.0
get_elem?-Holds P (suc i) (x ∷ xs) h = get_elem?-Holds P i xs h.1

pub length-exchange :
    (x y : Option ℕ) (i j : ℕ) (xs : List ℕ) → length (exchange x y i j xs) ≡ length xs
unfolding exchange
length-exchange none y i j xs = refl
length-exchange (some x) none i j xs = refl
length-exchange (some x) (some y) i j xs = length-put_at j x (put_at i y xs) ∙ length-put_at i y xs

pub All-exchange :
    (P : ℕ → Type 0) (x y : Option ℕ) (i j : ℕ) (xs : List ℕ)
    → Holds P x
    → Holds P y
    → All P xs
    → All P (exchange x y i j xs)
unfolding exchange
All-exchange P none y i j xs h g k = k
All-exchange P (some x) none i j xs h g k = k
All-exchange P (some x) (some y) i j xs h g k =
    All-put_at P j x (put_at i y xs) h (All-put_at P i y xs g k)

-- A call of `Swap` leaves a series.
swap-IsSeries : (i j : ℕ) (s : TimeCounters) → IsSeries s → IsSeries (swap i j s)
unfolding swap
swap-IsSeries i j s (same, ts, vs) = (
  length-exchange _ _ i j s.times ∙ same ∙ sym (length-exchange _ _ i j s.counters),
  All-exchange IsU64 _ _ i j s.times (get_elem?-Holds IsU64 i s.times ts)
      (get_elem?-Holds IsU64 j s.times ts) ts,
  All-exchange IsU64 _ _ i j s.counters (get_elem?-Holds IsU64 i s.counters vs)
      (get_elem?-Holds IsU64 j s.counters vs) vs,
)

swap_all-IsSeries :
    (calls : List (ℕ × ℕ)) (s : TimeCounters)
    → IsSeries s
    → IsSeries (swap_all calls s) × (length (swap_all calls s).times ≡ length s.times)
unfolding swap_all
swap_all-IsSeries [] s h = (h, refl)
swap_all-IsSeries ((i, j) ∷ calls) s h =
    let (series, same) = swap_all-IsSeries calls (swap i j s) (swap-IsSeries i j s h) in
    (series, same ∙ unfold swap in length-exchange _ _ i j s.times)

by_time-IsSeries :
    (sort_calls : TimeCounters → List (ℕ × ℕ)) (s : TimeCounters)
    → IsSeries s
    → IsSeries (by_time sort_calls s) × (length (by_time sort_calls s).times ≡ length s.times)
unfolding by_time
by_time-IsSeries sort_calls s h = elim (Bool-cases (is_sorted s.times)) [
  | inl t ↦ rw t (h, refl)
  | inr f ↦ rw f (swap_all-IsSeries (sort_calls s) s h)
]

swap-Perm :
    (i j : ℕ) (s : TimeCounters)
    → length s.times ≡ length s.counters
    → Perm (pairs (swap i j s).times (swap i j s).counters) (pairs s.times s.counters)
unfolding swap
swap-Perm i j s h = exchange-Perm i j s.times s.counters h

swap_all-Perm :
    (calls : List (ℕ × ℕ)) (s : TimeCounters)
    → IsSeries s
    → Perm (pairs (swap_all calls s).times (swap_all calls s).counters) (pairs s.times s.counters)
unfolding swap_all
swap_all-Perm [] s h = Perm.refl (pairs s.times s.counters)
swap_all-Perm ((i, j) ∷ calls) s h =
    Perm.trans (swap_all-Perm calls (swap i j s) (swap-IsSeries i j s h)) (swap-Perm i j s h.0)

by_time-Perm :
    (sort_calls : TimeCounters → List (ℕ × ℕ)) (s : TimeCounters)
    → IsSeries s
    → Perm
        (pairs (by_time sort_calls s).times (by_time sort_calls s).counters)
        (pairs s.times s.counters)
unfolding by_time
by_time-Perm sort_calls s h = elim (Bool-cases (is_sorted s.times)) [
  | inl t ↦ rw t (Perm.refl (pairs s.times s.counters))
  | inr f ↦ rw f (swap_all-Perm (sort_calls s) s h)
]

encode_counters_lem :
    (sort_calls : TimeCounters → List (ℕ × ℕ)) (s : TimeCounters) (e : Encoder)
    → length s.times ≡ length s.counters
    → encode_counters sort_calls s e ≡ (ok tt, write (wire_counters (by_time sort_calls s)) e)
unfolding encode_counters
encode_counters_lem sort_calls s e h =
    let passes : (length s.times == length s.counters) ≡ true = ground arith in
    rw (passes, write_uvarint_lem, write_uvarint_lem, write-write, write-write)

-- For times and counters of the same number, in any order and whatever calls of Swap sort them, EncodeTo
-- writes bytes from which DecodeTo makes the series as the sort leaves it, in memory and from a stream,
-- and stops right behind them. The pairs of a time and a counter at the same place of this series are the
-- pairs of the given one, each as often as there. Times and counters are uint64, and twenty bytes for
-- each pair are at most half of what an int counts.
pub decode_counters-encode_counters :
    (sort_calls : TimeCounters → List (ℕ × ℕ)) (s : TimeCounters) (k : Origin) (front rest : List ℕ)
    → IsSeries s
    → 20 * length s.times ≤ max_int / 2
    → (bytes : List ℕ) × ((e : Encoder) → encode_counters sort_calls s e ≡ (ok tt, write bytes e))
      × (decode_counters (holding k front (bytes ++ rest))
          ≡ (ok (by_time sort_calls s), holding k (front ++ bytes) rest))
      × Perm
          (pairs (by_time sort_calls s).times (by_time sort_calls s).counters)
          (pairs s.times s.counters)
decode_counters-encode_counters sort_calls s k front rest h g =
    let (series, same) = by_time-IsSeries sort_calls s h in
    (
      wire_counters (by_time sort_calls s),
      (λ e. encode_counters_lem sort_calls s e h.0),
      decode_counters_lem (by_time sort_calls s) k front rest series (omega arith),
      by_time-Perm sort_calls s h,
    )
