-- ===== src/Observation/Cache.antt =====
-- src/observation/cache.ts: captured pairs of sources, kept in the order in which they were put.
use passeur.Coordination.State.Records.{ObjectFormat}
use passeur.Base.{
  ok, structural_capture_too_large, structural_detail_unavailable, err, ◌∷◌, ◌||◌, ◌>>◌, ◌-◌, ◌+◌,
  ℕ, zero, throw_if, suc, str_eq, some, none, ltb, length, leb, if◌then◌else◌, find, [], String,
  Result, Option, List, Bool,
}

pub record GitSource : Type 0 where
  pub repository_id : String
  pub object_format : ObjectFormat
  pub commit_oid : String
  pub tree_oid : String
  pub path : String

pub record WorkingSource : Type 0 where
  pub repository_id : String
  pub object_format : ObjectFormat
  pub workspace_id : String
  pub workspace_generation : ℕ
  pub capture_id : String
  pub capture_sequence : ℕ
  pub head_anchor : String
  pub path : String

pub data SourceIdentity : Type 0 where
  commit : GitSource → SourceIdentity
  working_capture : WorkingSource → SourceIdentity

pub data Consistency : Type 0 where
  immutable_git_blob sampled_file_not_atomic : Consistency

pub data EntryKind : Type 0 where
  symlink submodule directory special : EntryKind

pub data SourceFile : Type 0 where
  present :
      SourceIdentity
      → (mode content_sha256 : String) (byte_length : ℕ) (text : String) → Consistency
      → (blob_oid : Option String) → SourceFile
  absent_in_commit : GitSource → SourceFile
  missing_during_capture : WorkingSource → SourceFile
  non_source : SourceIdentity → EntryKind → (mode object_oid : Option String) → SourceFile

pub record CachedPair : Type 0 where
  pub work_id : String
  pub work_revision : ℕ
  pub input : SourceFile
  pub observed : SourceFile

abbrev pub max_capture_bytes : ℕ
max_capture_bytes = 67108864

abbrev pub max_capture_pairs : ℕ
max_capture_pairs = 32

abbrev pub file_bytes : SourceFile → ℕ
file_bytes (SourceFile.present _ _ _ byte_length _ _ _) = byte_length
file_bytes _ = 0

unfoldable pub pair_bytes : CachedPair → ℕ
pair_bytes pair = file_bytes pair.input + file_bytes pair.observed

pub record CacheEntry : Type 0 where
  pub id : String
  pub pair : CachedPair

pub record CapturedPairCache : Type 0 where
  pub entries : List CacheEntry
  pub bytes : ℕ

abbrev pub must_evict : ℕ → CapturedPairCache → Bool
must_evict bytes cache =
    leb max_capture_pairs (length cache.entries) || ltb max_capture_bytes (cache.bytes + bytes)

-- `break` where there is no oldest entry.
abbrev pub drop_oldest : CapturedPairCache → Option CapturedPairCache
drop_oldest cache = elim cache.entries [
  | [] ↦ none
  | oldest ∷ rest ↦ some (record { entries = rest; bytes = cache.bytes - pair_bytes oldest.pair })
]

-- The loop of `put`, run for at most `fuel` rounds; none where it would go on.
unfoldable pub evict : (fuel : ℕ) (bytes : ℕ) → CapturedPairCache → Option CapturedPairCache
evict zero bytes cache = none
evict (suc fuel) bytes cache =
    if must_evict bytes cache
    then elim (drop_oldest cache) [ none ↦ some cache | some less ↦ evict fuel bytes less ]
    else some cache

-- `Map.set`: an entry of that id keeps its place.
abbrev pub set_entry : String → CachedPair → List CacheEntry → List CacheEntry
set_entry id pair [] = record { id = id; pair = pair } ∷ []
set_entry id pair (e ∷ es) =
    if str_eq e.id id then record { id = id; pair = pair } ∷ es else e ∷ set_entry id pair es

-- The fuel is one round for each entry, and the round that ends the loop.
unfoldable pub put :
    (uuid : String) → CachedPair → CapturedPairCache → Result (String × CapturedPairCache)
put uuid pair cache = do
  throw_if (ltb max_capture_bytes (pair_bytes pair)) structural_capture_too_large
  elim (evict (suc (length cache.entries)) (pair_bytes pair) cache) [
    | none ↦ err structural_capture_too_large
    | some less ↦ ok (
      uuid,
      record { entries = set_entry uuid pair less.entries; bytes = less.bytes + pair_bytes pair },
    )
  ]

unfoldable pub get : (id : String) → CapturedPairCache → Result CachedPair
get id cache = elim (find (λ (e : CacheEntry). str_eq e.id id) cache.entries) [
  | none ↦ err structural_detail_unavailable
  | some e ↦ ok e.pair
]

unfoldable pub clear : CapturedPairCache → CapturedPairCache
clear cache = record { entries = []; bytes = 0 }
