-- ===== src/FeatureFlag.antt =====
-- src/modules/feature-flag/feature-flag.service.ts: flags in PostgreSQL, cached in a hash of Redis
-- and for five seconds in the process. Flag keys hold no colon, so a key of the process's cache ends
-- with `:flagKey` exactly when it is of that flag.
pub mod Coherence
pub mod Refines
pub mod Answers
pub mod Replay
use multi_tenant_collaborati.Common.{
  ℕ, ◌+◌, Bool, true, false, ◌&&◌, ◌||◌, Option, none, some, String, List, [], ◌∷◌, ◌==◌, ltb,
  if◌then◌else◌, or_else, is_some, contains, select_first, update_where, delete_where,
}

pub record FeatureFlagRow : Type 0 where
  pub id : ℕ
  pub key : ℕ
  pub description : Option String
  pub is_globally_enabled : Bool
  pub rollout_percentage : ℕ
  pub enabled_org_ids : List ℕ
  pub disabled_org_ids : List ℕ
  pub created_at : ℕ
  pub updated_at : ℕ

-- What the hash of Redis holds of a flag.
pub record CachedFlag : Type 0 where
  pub is_globally_enabled : Bool
  pub enabled_org_ids : List ℕ
  pub disabled_org_ids : List ℕ

pub record L1Entry : Type 0 where
  pub value : Bool
  pub expires_at : ℕ

pub record FlagState : Type 0 where
  pub flags : List FeatureFlagRow
  pub l2 : ℕ → Option CachedFlag
  pub l1 : ℕ → ℕ → Option L1Entry

abbrev pub l1_ttl_ms : ℕ
l1_ttl_ms = 5000

abbrev pub cached_flag : FeatureFlagRow → CachedFlag
cached_flag row = record {
  is_globally_enabled = row.is_globally_enabled;
  enabled_org_ids = row.enabled_org_ids;
  disabled_org_ids = row.disabled_org_ids;
}

unfoldable pub resolve_flag : CachedFlag → ℕ → Bool
resolve_flag flag org =
    if contains org flag.disabled_org_ids
    then false
    else if contains org flag.enabled_org_ids
    then true
    else flag.is_globally_enabled

-- `hset(L2_REDIS_KEY, key, flag)`.
abbrev pub hset : ℕ → CachedFlag → (ℕ → Option CachedFlag) → ℕ → Option CachedFlag
hset key flag l2 k = if k == key then some flag else l2 k

unfoldable pub hset_all : List FeatureFlagRow → (ℕ → Option CachedFlag) → ℕ → Option CachedFlag
hset_all [] l2 = l2
hset_all (row ∷ rows) l2 = hset_all rows (hset row.key (cached_flag row) l2)

unfoldable pub load_flags_into_redis : FlagState → FlagState
unfolding hset_all
load_flags_into_redis s = record s { l2 = hset_all s.flags s.l2 }

-- `SELECT … FROM feature_flags WHERE key = $1 LIMIT 1`.
unfoldable pub find_flag : ℕ → List FeatureFlagRow → Option FeatureFlagRow
find_flag key rows = select_first (λ row. row.key == key) rows

-- `l1Cache.set(cacheKey, { value, expiresAt })`.
abbrev pub set_l1 : ℕ → ℕ → ℕ → Bool → FlagState → FlagState
set_l1 now org key answer s = record s {
  l1 = λ o k.
      if o == org && k == key
      then some (record { value = answer; expires_at = now + l1_ttl_ms })
      else s.l1 o k;
}

abbrev pub fresh_l1 : ℕ → Option L1Entry → Option Bool
fresh_l1 now none = none
fresh_l1 now (some entry) = if ltb now entry.expires_at then some entry.value else none

-- What the query on the database gives, and what is cached of it.
unfoldable pub from_row : ℕ → ℕ → ℕ → Option FeatureFlagRow → FlagState → Bool × FlagState
unfolding resolve_flag
from_row now org key none s = (false, set_l1 now org key false s)
from_row now org key (some row) s =
    let answer = resolve_flag (cached_flag row) org in
    let cached = set_l1 now org key answer s in
    (answer, record cached { l2 = hset key (cached_flag row) cached.l2 })

unfoldable pub from_db : Bool → ℕ → ℕ → ℕ → FlagState → Bool × FlagState
unfolding from_row find_flag
from_db false now org key s = (false, s)
from_db true now org key s = from_row now org key (find_flag key s.flags) s

unfoldable pub from_l2 : Option CachedFlag → Bool → ℕ → ℕ → ℕ → FlagState → Bool × FlagState
unfolding resolve_flag from_db
from_l2 none db_up now org key s = from_db db_up now org key s
from_l2 (some flag) db_up now org key s =
    (resolve_flag flag org, set_l1 now org key (resolve_flag flag org) s)

unfoldable pub from_l1 : Option Bool → Bool → ℕ → ℕ → ℕ → FlagState → Bool × FlagState
unfolding from_l2
from_l1 (some answer) db_up now org key s = (answer, s)
from_l1 none db_up now org key s = from_l2 (s.l2 key) db_up now org key s

-- The flag for an organization, while Redis answers; `db_up` says whether the database does.
unfoldable pub is_enabled : Bool → ℕ → ℕ → ℕ → FlagState → Bool × FlagState
unfolding from_l1
is_enabled db_up now org key s = from_l1 (fresh_l1 now (s.l1 org key)) db_up now org key s

-- What a process does with an invalidation: it forgets the flag for all organizations.
unfoldable pub forget_l1 : ℕ → FlagState → FlagState
forget_l1 key s = record s { l1 = λ o k. if k == key then none else s.l1 o k }

unfoldable pub invalidate_flag : ℕ → FlagState → FlagState
unfolding forget_l1
invalidate_flag key s = record (forget_l1 key s) { l2 = λ k. if k == key then none else s.l2 k }

pub record CreateFlagData : Type 0 where
  pub key : ℕ
  pub is_globally_enabled : Option Bool
  pub description : Option String
  pub enabled_org_ids : Option (List ℕ)
  pub disabled_org_ids : Option (List ℕ)

unfoldable pub new_flag : ℕ → ℕ → CreateFlagData → FeatureFlagRow
new_flag new_id now flag = record {
  id = new_id;
  key = flag.key;
  description = flag.description;
  is_globally_enabled = or_else flag.is_globally_enabled false;
  rollout_percentage = 0;
  enabled_org_ids = or_else flag.enabled_org_ids [];
  disabled_org_ids = or_else flag.disabled_org_ids [];
  created_at = now;
  updated_at = now;
}

abbrev pub flag_by_id : ℕ → List FeatureFlagRow → Option FeatureFlagRow
flag_by_id id rows = select_first (λ row. row.id == id) rows

-- The primary key and the unique index on `key`: an insert that repeats one throws.
abbrev pub is_taken : ℕ → ℕ → List FeatureFlagRow → Bool
is_taken id key rows =
    is_some (select_first (λ row. row.key == key) rows) || is_some (flag_by_id id rows)

unfoldable pub create_flag : ℕ → ℕ → CreateFlagData → FlagState → Option FeatureFlagRow × FlagState
unfolding new_flag invalidate_flag
create_flag new_id now flag s = if is_taken new_id flag.key s.flags then (none, s) else (
  some (new_flag new_id now flag),
  invalidate_flag flag.key (record s { flags = new_flag new_id now flag ∷ s.flags }),
)

pub record UpdateFlagData : Type 0 where
  pub is_globally_enabled : Option Bool
  pub enabled_org_ids : Option (List ℕ)
  pub disabled_org_ids : Option (List ℕ)
  pub description : Option String

-- `SET column = COALESCE($n, column)`.
abbrev pub coalesce_flag : ℕ → UpdateFlagData → FeatureFlagRow → FeatureFlagRow
coalesce_flag now change row = record row {
  is_globally_enabled = or_else change.is_globally_enabled row.is_globally_enabled;
  enabled_org_ids = or_else change.enabled_org_ids row.enabled_org_ids;
  disabled_org_ids = or_else change.disabled_org_ids row.disabled_org_ids;
  description = elim change.description [ none ↦ row.description | some d ↦ some d ];
  updated_at = now;
}

-- Invalidation of the flag of the row that a statement returned, if it returned one.
unfoldable pub invalidate_returned : Option FeatureFlagRow → FlagState → FlagState
unfolding invalidate_flag
invalidate_returned none s = s
invalidate_returned (some row) s = invalidate_flag row.key s

unfoldable pub update_flag : ℕ → ℕ → UpdateFlagData → FlagState → Option FeatureFlagRow × FlagState
unfolding invalidate_returned
update_flag now id change s =
    let rows = update_where (λ row. row.id == id) (coalesce_flag now change) s.flags in
    (flag_by_id id rows, invalidate_returned (flag_by_id id rows) (record s { flags = rows }))

unfoldable pub delete_flag : ℕ → FlagState → FlagState
unfolding invalidate_returned
delete_flag id s =
    invalidate_returned (flag_by_id id s.flags)
      (record s { flags = delete_where (λ row. row.id == id) s.flags })

-- `SELECT * FROM feature_flags ORDER BY key`: each row before the first with a greater key.
abbrev pub insert_by_key : FeatureFlagRow → List FeatureFlagRow → List FeatureFlagRow
insert_by_key row [] = row ∷ []
insert_by_key row (x ∷ xs) =
    let rest = insert_by_key row xs in if ltb row.key x.key then row ∷ x ∷ xs else x ∷ rest

unfoldable pub list_flags : List FeatureFlagRow → List FeatureFlagRow
list_flags [] = []
list_flags (row ∷ rows) = insert_by_key row (list_flags rows)
