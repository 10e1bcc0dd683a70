-- ===== src/Executor/Policy/Rate.antt =====
-- The dynamic half of the policy's check: `CheckRate` and `allowRate` of policy.go. `now` is the
-- clock's reading in milliseconds, which the source takes inside the call, under its mutex.
use deepaxiom_aura.Base.{
  ℕ, suc, ◌+◌, ◌≤◌, ◌<◌, min, ◌≡◌, String, Bool, true, false, Option, none, some, List, [], ◌∷◌,
  length, arith, string_eq, str_eq_iff, if◌then◌else◌, ltb, leb, Dict, lookup, insert,
  lookup-insert,
}
use deepaxiom_aura.Base.Int.{pos, pos_part, ltb_ℤ}
use deepaxiom_aura.Executor.Policy.{Policy, Bucket, Reason, decide}

abbrev pub minute : ℕ
minute = 60000

abbrev pub max_buckets : ℕ
max_buckets = 1024

abbrev pub Buckets : Type 0
Buckets = Dict String Bucket

-- The bucket of a capability, and the map that holds it.
unfoldable pub open_bucket : ℕ → Buckets → String → Bucket × Buckets
open_bucket now buckets capability = elim (lookup capability buckets) [
  | some b ↦ (b, buckets)
  | none ↦
      let kept = if ltb max_buckets (length buckets) then [] else buckets in
      let b : Bucket = record { window_start = now; count = 0 } in (b, insert capability b kept)
]

-- now.Sub(b.windowStart) >= time.Minute
abbrev pub roll : ℕ → Bucket → Bucket
roll now b =
    if leb (b.window_start + minute) now then record { window_start = now; count = 0 } else b

unfoldable pub allow_rate : ℕ → Buckets → String → ℕ → Buckets × Bool
allow_rate now buckets capability per_minute =
    let (b, opened) = open_bucket now buckets capability in
    let b' = roll now b in
    if leb per_minute b'.count
    then (insert capability b' opened, false)
    else (insert capability (record b' { count = b'.count + 1 }) opened, true)

-- `none` is a nil error; the refusal carries the reason of its text.
unfoldable pub check_rate : ℕ → Policy → String → Policy × Option Reason
check_rate now p capability =
    let ruling = decide p capability in
    elim ruling.limit [
      | none ↦ (p, none)
      | some limit ↦
          if ltb_ℤ (pos 0) limit.per_minute
          then (let (buckets', allowed) =
                allow_rate now p.buckets capability (pos_part limit.per_minute) in
              (record p { buckets = buckets' }, (if allowed then none else some ruling.reason)))
          else (p, none)
    ]

-- Calls for one capability at a list of instants: the map they leave, and how many were allowed.
unfoldable pub allow_all : Buckets → String → ℕ → List ℕ → Buckets × ℕ
allow_all buckets capability per_minute [] = (buckets, 0)
allow_all buckets capability per_minute (now ∷ times) =
    let (buckets', allowed) = allow_rate now buckets capability per_minute in
    let (last, granted) = allow_all buckets' capability per_minute times in
    (last, if allowed then suc granted else granted)

abbrev pub AllBefore : ℕ → List ℕ → Type 0
AllBefore t [] = Unit
AllBefore t (x ∷ xs) = (x < t) × AllBefore t xs

module _ (capability : String) (per_minute start : ℕ) where
  one_call :
      (buckets : Buckets) (count now : ℕ)
      → lookup capability buckets ≡ some (record { window_start = start; count = count })
      → now < start + minute
      → (allow_rate now buckets capability per_minute).1 ≡ ltb count per_minute
  unfolding allow_rate open_bucket
  one_call buckets count now h t = rw (h, open_bucket) (ground arith)

  one_call_bucket :
      (buckets : Buckets) (count now : ℕ)
      → lookup capability buckets ≡ some (record { window_start = start; count = count })
      → now < start + minute
      → lookup capability (allow_rate now buckets capability per_minute).0
        ≡ some (record {
          window_start = start;
          count = if ltb count per_minute then count + 1 else count;
        })
  unfolding allow_rate open_bucket
  one_call_bucket buckets count now h t =
      rw (h, open_bucket)
        (ground (
          arith,
          lookup-insert capability capability (record { window_start = start; count = count + 1 })
              buckets,
          lookup-insert capability capability (record { window_start = start; count = count })
              buckets,
          str_eq_iff capability capability,
        ))

  -- Inside one window, from a count within the limit, a capability is allowed until its count
  -- reaches the limit, and no further.
  pub window_grants :
      (buckets : Buckets) (count : ℕ) (times : List ℕ)
      → lookup capability buckets ≡ some (record { window_start = start; count = count })
      → count ≤ per_minute
      → AllBefore (start + minute) times
      → count + (allow_all buckets capability per_minute times).1
        ≡ min per_minute (count + length times)
  unfolding allow_all
  window_grants buckets count [] h fits before = omega arith
  window_grants buckets count (now ∷ times) h fits before = ground (
    arith,
    one_call buckets count now h,
    window_grants (allow_rate now buckets capability per_minute).0 (count + 1) times,
    window_grants (allow_rate now buckets capability per_minute).0 count times,
    one_call_bucket buckets count now h,
  )
