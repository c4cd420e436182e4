-- ===== src/Scout/Events/Dedup.antt =====
-- The table of events seen, as a map from an event to the time at which it was first seen.
use tristar.Base.{
  ℕ, ◌+◌, ◌-◌, ◌*◌, ◌≤◌, String, Bool, true, false, Option, none, some, List, [], ◌∷◌, ◌≡◌, ◌↔◌,
  refl, arith, ltb, if◌then◌else◌, eq_iff, ◌==◌, is_some, ◌||◌, ◌&&◌, not,
}
use tristar.Base.Dict.{
  IsDict, erase-IsDict, insert-IsDict, lookup, erase, lookup-insert, lookup-erase,
}
use tristar.Clock.{second}
use tristar.Scout.Events.{Seen, stale, erase_all, is_duplicate_event}

abbrev has : String → List String → Bool
has k [] = false
has k (j ∷ ks) = j == k || has k ks

lookup-erase_all :
    (k : String) (ks : List String) (seen : Seen)
    → lookup k (erase_all ks seen) ≡ (if has k ks then none else lookup k seen)
unfolding erase_all
lookup-erase_all k [] seen = refl
lookup-erase_all k (j ∷ ks) seen =
    ground (arith, lookup-erase_all k ks (erase j seen), lookup-erase j k seen)

abbrev is_stale : ℕ → Option ℕ → Bool
is_stale cutoff none = false
is_stale cutoff (some t) = ltb t cutoff

has-stale :
    (cutoff : ℕ) (k : String) (seen : Seen)
    → IsDict seen
    → has k (stale cutoff seen) ≡ is_stale cutoff (lookup k seen)
unfolding stale lookup
has-stale cutoff k [] h = refl
has-stale cutoff k ((j, t) ∷ seen) h = ground (arith, has-stale cutoff k seen h.1, eq_iff j k)

-- The entry of a map that is still in its window.
abbrev unless_stale : ℕ → Option ℕ → Option ℕ
unless_stale cutoff none = none
unless_stale cutoff (some t) = if ltb t cutoff then none else some t

lookup-fresh :
    (cutoff : ℕ) (k : String) (seen : Seen)
    → IsDict seen
    → lookup k (erase_all (stale cutoff seen) seen) ≡ unless_stale cutoff (lookup k seen)
lookup-fresh cutoff k seen h =
    ground (arith, lookup-erase_all k (stale cutoff seen) seen, has-stale cutoff k seen h)

erase_all-IsDict : (ks : List String) (seen : Seen) → IsDict seen → IsDict (erase_all ks seen)
unfolding erase_all
erase_all-IsDict [] seen h = h
erase_all-IsDict (k ∷ ks) seen h = erase_all-IsDict ks (erase k seen) (erase-IsDict k seen h)

pub duplicate-IsDict :
    (e : String) (now later : ℕ) (seen : Seen)
    → IsDict seen
    → IsDict (is_duplicate_event e now later seen).1
unfolding is_duplicate_event
duplicate-IsDict e now later seen h =
    let fresh = erase_all-IsDict (stale (now - 60 * second) seen) seen h in
    ground
      (arith, fresh, insert-IsDict e later (erase_all (stale (now - 60 * second) seen) seen) fresh)

-- The answer for an event and the table afterwards, as maps, for a table with one entry for each
-- event: an event counts as a duplicate exactly if an entry of the last 60 seconds is there,
-- entries that are older go, and an event that is no duplicate is entered at the later reading of
-- the clock.
pub is_duplicate_event_lem :
    (e : String) (now later : ℕ) (seen : Seen)
    → IsDict seen
    → let (duplicate, seen') = is_duplicate_event e now later seen in
      (duplicate ≡ is_some (unless_stale (now - 60 * second) (lookup e seen)))
      × ((k : String)
          → lookup k seen' ≡ (
              if e == k && not duplicate
              then some later
              else unless_stale (now - 60 * second) (lookup k seen)))
unfolding is_duplicate_event
is_duplicate_event_lem e now later seen h =
    let cutoff = now - 60 * second in
    let fresh = erase_all (stale cutoff seen) seen in
    (
      ground (arith, lookup-fresh cutoff e seen h),
      λ k. ground (
        arith,
        lookup-fresh cutoff e seen h,
        lookup-fresh cutoff k seen h,
        lookup-insert e k later fresh,
        eq_iff e k,
      ),
    )

-- An event that was taken is a duplicate when it comes again, for 60 seconds and no longer.
pub second_event :
    (e : String) (now later now' later' : ℕ) (seen : Seen)
    → IsDict seen
    → let (duplicate, seen') = is_duplicate_event e now later seen in
      duplicate ≡ false
      → (((is_duplicate_event e now' later' seen').0 ≡ true) ↔ (now' ≤ later + 60 * second))
second_event e now later now' later' seen h first =
    let seen' = (is_duplicate_event e now later seen).1 in
    let entered = (is_duplicate_event_lem e now later seen h).1 e in
    let again =
      (is_duplicate_event_lem e now' later' seen' (duplicate-IsDict e now later seen h)).0 in
    (
      λ t. ground (arith, entered, again, (eq_iff e e).1 refl),
      λ le. ground (arith, entered, again, (eq_iff e e).1 refl),
    )
