-- ===== src/Observation/Evictions.antt =====
-- src/observation/cache.ts: the loop of `put` ends, and the cache stays within its bounds.
use passeur.Base.{
  str_eq_refl, find-none-of_any, find-append_none, find, ok, sum_of-append, str_eq, length-append,
  any-append, any, String, Bool, ◌∙◌, ◌-◌, false, ap, Option, ◌≤◌, ◌≡◌, ◌∷◌, ◌<◌, ◌+◌, ◌++◌, ℕ,
  zero, sum_of, suc, some, refl, length, inr, inl, arith, [], List, Bool-cases,
}
use passeur.Observation.Cache.{
  set_entry, put, get, CachedPair, pair_bytes, must_evict, max_capture_pairs, max_capture_bytes,
  evict, CapturedPairCache, CacheEntry,
}

abbrev entry_bytes : CacheEntry → ℕ
entry_bytes e = pair_bytes e.pair

-- The count of bytes is that of the entries.
abbrev pub IsMeasured : CapturedPairCache → Type 0
IsMeasured cache = cache.bytes ≡ sum_of entry_bytes cache.entries

abbrev pub Fits : ℕ → CapturedPairCache → Type 0
Fits bytes cache =
    (length cache.entries < max_capture_pairs) × (cache.bytes + bytes ≤ max_capture_bytes)

-- What stays are the latest entries: `dropped` is what stood before them.
abbrev pub KeepsLatest : CapturedPairCache → CapturedPairCache → Type 0
KeepsLatest cache less = (dropped : List CacheEntry) × (cache.entries ≡ dropped ++ less.entries)

-- What a run of the loop on this cache leaves.
abbrev pub Evicted : ℕ → CapturedPairCache → Option CapturedPairCache → Type 0
Evicted bytes cache result =
    (less : CapturedPairCache) × (result ≡ some less)
    × Fits bytes less
    × IsMeasured less
    × KeepsLatest cache less

empty_fits :
    (bytes : ℕ) (cache : CapturedPairCache)
    → cache.entries ≡ []
    → bytes ≤ max_capture_bytes
    → IsMeasured cache
    → must_evict bytes cache ≡ false
empty_fits bytes cache at_end small measured =
    let none_kept : length cache.entries ≡ 0 = ap length at_end in
    let no_bytes : cache.bytes ≡ 0 = measured ∙ ap (sum_of entry_bytes) at_end in
    ground (arith, none_kept, no_bytes, small)

abbrev cache_of : List CacheEntry → ℕ → CapturedPairCache
cache_of entries bytes = record { entries = entries; bytes = bytes }

evict_entries :
    (fuel bytes : ℕ) (entries : List CacheEntry) (kept : ℕ)
    → length entries < fuel
    → bytes ≤ max_capture_bytes
    → IsMeasured (cache_of entries kept)
    → Evicted bytes (cache_of entries kept) (evict fuel bytes (cache_of entries kept))
unfolding evict
evict_entries zero bytes entries kept enough small measured = absurd (omega (arith, enough))
evict_entries (suc fuel) bytes [] kept enough small measured =
    let done = empty_fits bytes (cache_of [] kept) refl small measured in
    (cache_of [] kept, rw done refl, ground (arith, done), measured, ([], refl))
evict_entries (suc fuel) bytes (oldest ∷ rest) kept enough small measured =
    elim (Bool-cases (must_evict bytes (cache_of (oldest ∷ rest) kept))) [
      | inr e ↦ (cache_of (oldest ∷ rest) kept, rw e refl, ground (arith, e), measured, ([], refl))
      | inl e ↦
          let (less, ran, fits, counted, (dropped, latest)) =
            evict_entries fuel bytes rest (kept - pair_bytes oldest.pair) (omega (arith, enough))
              small (omega (arith, measured)) in
          (less, rw e ran, fits, counted, (oldest ∷ dropped, ap (λ es. oldest ∷ es) latest))
    ]

-- The loop ends within one round for each entry and one more, if the new pair is within the limit by
-- itself: with room for the pair, with the latest entries only, and with their bytes counted.
pub evict-ends :
    (fuel bytes : ℕ) (cache : CapturedPairCache)
    → length cache.entries < fuel
    → bytes ≤ max_capture_bytes
    → IsMeasured cache
    → Evicted bytes cache (evict fuel bytes cache)
evict-ends fuel bytes cache enough small measured =
    evict_entries fuel bytes cache.entries cache.bytes enough small measured

abbrev pub IsBounded : CapturedPairCache → Type 0
IsBounded cache =
    IsMeasured cache
    × (length cache.entries ≤ max_capture_pairs)
    × (cache.bytes ≤ max_capture_bytes)

abbrev pub is_entry : String → CacheEntry → Bool
is_entry id e = str_eq e.id id

set_fresh :
    (id : String) (pair : CachedPair) (es : List CacheEntry)
    → any (is_entry id) es ≡ false
    → set_entry id pair es ≡ es ++ record { id = id; pair = pair } ∷ []
set_fresh id pair [] h = refl
set_fresh id pair (e ∷ es) h = elim (Bool-cases (str_eq e.id id)) [
  | inl same ↦ absurd (ground (arith, h, same))
  | inr other ↦ rw (other, set_fresh id pair es (ground (arith, h, other))) refl
]

found_here :
    (id : String) (pair : CachedPair)
    → find (is_entry id) (record { id = id; pair = pair } ∷ [])
      ≡ some (record { id = id; pair = pair })
found_here id pair = rw (str_eq_refl id) refl

-- A put of a pair that is within the limit by itself, under an id that the cache does not have,
-- returns: the cache stays within its bounds, with its bytes counted, and the pair is read back.
pub put-IsBounded :
    (uuid : String) (pair : CachedPair) (cache : CapturedPairCache)
    → IsBounded cache
    → pair_bytes pair ≤ max_capture_bytes
    → any (is_entry uuid) cache.entries ≡ false
    → (after : CapturedPairCache) × (put uuid pair cache ≡ ok (uuid, after))
      × IsBounded after
      × (get uuid after ≡ ok pair)
unfolding put get
put-IsBounded uuid pair cache (measured, _, _) small fresh =
    let (less, ran, (room, bytes), counted, (dropped, latest)) =
      evict-ends (suc (length cache.entries)) (pair_bytes pair) cache (omega arith) small
        measured in
    let still_fresh : any (is_entry uuid) less.entries ≡ false = ground (
      arith,
      any-append (is_entry uuid) dropped less.entries,
      ap (any (is_entry uuid)) latest,
      fresh,
    ) in
    let entry : CacheEntry = record { id = uuid; pair = pair } in
    let after : CapturedPairCache = record {
      entries = set_entry uuid pair less.entries;
      bytes = less.bytes + pair_bytes pair;
    } in
    let appended : set_entry uuid pair less.entries ≡ less.entries ++ entry ∷ [] =
      set_fresh uuid pair less.entries still_fresh in
    (
      after,
      ground (arith, ran, small),
      (
        rw appended (omega (arith, sum_of-append entry_bytes less.entries (entry ∷ []), counted)),
        rw appended (omega (arith, length-append less.entries (entry ∷ []), room)),
        bytes,
      ),
      let here : find (is_entry uuid) after.entries ≡ some entry =
            ap (find (is_entry uuid)) appended
            ∙ find-append_none (is_entry uuid) less.entries (entry ∷ [])
                (find-none-of_any (is_entry uuid) less.entries still_fresh)
            ∙ found_here uuid pair in
          ground (arith, here),
    )
