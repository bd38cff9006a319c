-- ===== src/Scanner/Cache.antt =====
-- scanner.go: `scan`, which keeps the codecs that it found in `schemas`, a sync.Map of the whole
-- program.
pub mod Threads
use binary.Prelude.{ℕ, zero, suc, ◌≡◌, refl, ap, sym, ◌∙◌, All, Bool, true, false}
use binary.Prelude.{List, [], ◌∷◌, Option, none, some, if◌then◌else◌, Bool-cases, inl, inr}
use binary.Base.{Result, ok, err, panic, M, ok-injective}
use binary.Codec.{Codec}
use binary.Scanner.{GoType, scan_type}

-- What `reflect` says of types: whether two are the same, how one is made up, and the size of one.
pub record GoTypes (T : Type 0) : Type 0 where
  pub same : T → T → Bool
  pub same-eq : (t u : T) → same t u ≡ true → t ≡ u
  pub describe : T → GoType
  pub size_of : GoType → ℕ

module _ {T : Type 0} (types : GoTypes T) where
  -- `scanType`
  unfoldable pub scan_anew : T → Result Codec
  scan_anew t = scan_type types.size_of (types.describe t)

  -- `schemas.Load`
  unfoldable pub load : T → List (T × Codec) → Option Codec
  load t [] = none
  load t ((u, c) ∷ table) = let rest = load t table in if types.same t u then some c else rest

  or_stored : T → Codec → Option Codec → List (T × Codec) → Codec × List (T × Codec)
  or_stored t c (some found) table = (found, table)
  or_stored t c none table = (c, (t, c) ∷ table)

  -- `schemas.LoadOrStore`
  pub load_or_store : T → Codec → List (T × Codec) → Codec × List (T × Codec)
  unfolding or_stored
  load_or_store t c table = or_stored t c (load t table) table

  keep_new : T → Result Codec → M (List (T × Codec)) Codec
  keep_new t (ok c) table = (ok (load_or_store t c table).0, (load_or_store t c table).1)
  keep_new t (err x) table = (err x, table)
  keep_new t panic table = (panic, table)

  found_first : T → Option Codec → M (List (T × Codec)) Codec
  unfolding keep_new
  found_first t (some c) table = (ok c, table)
  found_first t none table = keep_new t (scan_anew t) table

  pub scan : T → M (List (T × Codec)) Codec
  unfolding found_first
  scan t table = found_first t (load t table) table

  -- Every entry is what the scan of its type returns.
  abbrev pub IsTable : List (T × Codec) → Type 0
  IsTable table = All (λ x. scan_anew x.0 ≡ ok x.1) table

  pub load-IsTable :
      (t : T) (c : Codec) (table : List (T × Codec))
      → IsTable table
      → load t table ≡ some c
      → scan_anew t ≡ ok c
  unfolding load
  load-IsTable t c [] h e = cc
  load-IsTable t c ((u, d) ∷ table) h e = elim (Bool-cases (types.same t u)) [
    | inl hit ↦ let same : d ≡ c = cc in rw (types.same-eq t u hit, ← same) h.0
    | inr miss ↦ load-IsTable t c table h.1 (rw miss at e)
  ]

  or_stored-IsTable :
      (t : T) (c : Codec) (found : Option Codec) (table : List (T × Codec))
      → scan_anew t ≡ ok c
      → ((d : Codec) → found ≡ some d → scan_anew t ≡ ok d)
      → IsTable table
      → ((or_stored t c found table).0 ≡ c) × IsTable (or_stored t c found table).1
  unfolding or_stored
  or_stored-IsTable t c none table e g h = (refl, (e, h))
  or_stored-IsTable t c (some d) table e g h = (ok-injective (sym (g d refl) ∙ e), h)

  -- The codec that was stored first is the same one.
  pub load_or_store-IsTable :
      (t : T) (c : Codec) (table : List (T × Codec))
      → scan_anew t ≡ ok c
      → IsTable table
      → ((load_or_store t c table).0 ≡ c) × IsTable (load_or_store t c table).1
  unfolding load_or_store
  load_or_store-IsTable t c table e h =
      or_stored-IsTable t c (load t table) table e (λ d g. load-IsTable t d table h g) h

  keep_new-IsTable :
      (t : T) (out : Result Codec) (table : List (T × Codec))
      → scan_anew t ≡ out
      → IsTable table
      → ((keep_new t out table).0 ≡ out) × IsTable (keep_new t out table).1
  unfolding keep_new
  keep_new-IsTable t (ok c) table e h =
      let kept = load_or_store-IsTable t c table e h in (ap (λ d. ok d) kept.0, kept.1)
  keep_new-IsTable t (err x) table e h = (refl, h)
  keep_new-IsTable t panic table e h = (refl, h)

  found_first-IsTable :
      (t : T) (found : Option Codec) (table : List (T × Codec))
      → ((d : Codec) → found ≡ some d → scan_anew t ≡ ok d)
      → IsTable table
      → ((found_first t found table).0 ≡ scan_anew t) × IsTable (found_first t found table).1
  unfolding found_first
  found_first-IsTable t (some c) table g h = (sym (g c refl), h)
  found_first-IsTable t none table g h = keep_new-IsTable t (scan_anew t) table refl h

  -- With a table of which every entry is what the scan of its type returns, the scan that looks there first
  -- returns what a scan from scratch does, its error included, and leaves such a table.
  pub scan-IsTable :
      (t : T) (table : List (T × Codec))
      → IsTable table
      → ((scan t table).0 ≡ scan_anew t) × IsTable (scan t table).1
  unfolding scan
  scan-IsTable t table h =
      found_first-IsTable t (load t table) table (λ d e. load-IsTable t d table h e) h
