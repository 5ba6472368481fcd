-- ===== src/Limits/Holders.antt =====
-- The limiter of internal/limits/limits.go against the requests that hold a slot.
use n8n_sandbox_service.Base.{
  ℕ, ◌+◌, ◌-◌, ◌<◌, ◌≡◌, refl, ◌↔◌, String, true, false, none, some, arith, ltb, if◌then◌else◌,
  str_eq, eq_iff, lookup, lookup-insert, lookup-erase, lookup-nil, ℤ, pos, leb_ℤ, ltb_ℤ,
}
use n8n_sandbox_service.Limits.{KeyedLimiter, new_keyed_limiter, count, try_acquire, release}

-- How many requests in progress hold a slot for each key: one more for each `true` of
-- `TryAcquire`, one less for each `Release`.
abbrev pub Holders : Type 0
Holders = String → ℕ

abbrev add : String → Holders → Holders
add key h j = if str_eq key j then h j + 1 else h j

abbrev remove : String → Holders → Holders
remove key h j = if str_eq key j then h j - 1 else h j

-- Requests come and go; one that was refused holds nothing, and only a holder releases.
pub data Step (k : KeyedLimiter) (h : Holders) : KeyedLimiter → Holders → Type 0 where
  admitted :
      (key : String) → (try_acquire key k).1 ≡ true → Step k h (try_acquire key k).0 (add key h)
  refused : (key : String) → (try_acquire key k).1 ≡ false → Step k h (try_acquire key k).0 h
  released : (key : String) → 0 < h key → Step k h (release key k) (remove key h)

pub data Reach (max : ℤ) : KeyedLimiter → Holders → Type 0 where
  start : Reach max (new_keyed_limiter max) (λ _. 0)
  later : {k l : KeyedLimiter} {h g : Holders} → Reach max k h → Step k h l g → Reach max l g

-- With a positive limit the limiter counts the holders of each key, remembers only keys that have
-- one, and never has more than the limit.
pub record Counts (max : ℤ) (k : KeyedLimiter) (h : Holders) : Type 0 where
  pub limit : k.max ≡ max
  pub exact : (key : String) → lookup key k.counts ≡ (if ltb 0 (h key) then some (h key) else none)
  pub within : (key : String) → ltb_ℤ max (pos (h key)) ≡ false

abbrev IsLimited : ℤ → Type 0
IsLimited max = leb_ℤ max (pos 0) ≡ false

Step-Counts :
    {max : ℤ} {k l : KeyedLimiter} {h g : Holders}
    → IsLimited max
    → Step k h l g
    → Counts max k h
    → Counts max l g
unfolding try_acquire release
Step-Counts {max} {k} {h = h} lim (admitted key ok) c = record {
  limit = ground (arith, c.limit);
  exact = λ j.
      ground (
        arith,
        c.exact j,
        c.exact key,
        eq_iff key j,
        lookup-insert key j (count k key + 1) k.counts,
      );
  within = λ j. ground (arith, c.within j, c.exact key, eq_iff key j);
}
Step-Counts {max} {k} {h = h} lim (refused key no_slot) c = record {
  limit = ground (arith, c.limit);
  exact = λ j. ground (arith, c.exact j);
  within = c.within;
}
Step-Counts {max} {k} {h = h} lim (released key held) c = record {
  limit = ground (arith, c.limit);
  exact = λ j. ground (
    arith,
    c.exact j,
    c.exact key,
    eq_iff key j,
    lookup-insert key j (count k key - 1) k.counts,
    lookup-erase key j k.counts,
  );
  within = λ j. ground (arith, c.within j, c.exact key, eq_iff key j);
}

-- Whatever callers acquire and release, a limiter with a limit above 0 has for each key the number
-- of operations in progress, and that is at most the limit.
pub Reach-Counts :
    {max : ℤ} {k : KeyedLimiter} {h : Holders} → IsLimited max → Reach max k h → Counts max k h
unfolding new_keyed_limiter
Reach-Counts lim start = record {
  limit = refl;
  exact = λ key. lookup-nil {V = ℕ} key;
  within = λ key. ground arith;
}
Reach-Counts lim (later r st) = Step-Counts lim st (Reach-Counts lim r)

-- In every reachable state, with a limit above 0, a request is admitted exactly if its key has fewer
-- operations in progress than the limit.
try_acquire_iff :
    {max : ℤ} {k : KeyedLimiter} {h : Holders}
    → IsLimited max
    → Reach max k h
    → (key : String) → ((try_acquire key k).1 ≡ true) ↔ (ltb_ℤ (pos (h key)) max ≡ true)
unfolding try_acquire
try_acquire_iff {k} lim r key =
    let c = Reach-Counts lim r in
    (λ ok. ground (arith, c.limit, c.exact key), λ room. ground (arith, c.limit, c.exact key))
