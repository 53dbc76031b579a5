-- ===== src/Types/Keys.antt =====
-- The store keys of types/keys.go. A key is a constructor of `Key` with the arguments that the
-- key's bytes carry; `key_bytes` is the byte string, and Keys/Injective shows that different keys
-- have different bytes.
pub mod Equality
pub mod Injective
use cosmos_nixpool.Prelude.{ℕ, List, [], ◌∷◌, ◌++◌, Bytes, codes}
use cosmos_nixpool.External.{External}
use cosmos_nixpool.Field.{put_uint64, put_uint32, canonical_field_bytes}

pub data Key : Type 0 where
  -- treeId and index, level or slot
  commitment frontier root_history : ℕ → ℕ → Key
  tree_root tree_next_index : ℕ → Key
  root_index : Bytes → Key
  active_tree_id tree_count : Key
  reg_commitment reg_frontier : ℕ → Key
  reg_root reg_next_index : Key
  commitment_used reg_commitment_used nullifier : Bytes → Key
  params : Key
  vk auditor_data : Bytes → Key

-- MaxRootHistory, MaxAuditorDataSize
abbrev pub max_root_history : ℕ
max_root_history = 100

abbrev pub max_auditor_data_size : ℕ
max_auditor_data_size = 4096

-- The prefix variables.
unfoldable pub key_prefix : Key → Bytes
key_prefix (Key.commitment t i) = codes "nixpool/c/"
key_prefix (Key.frontier t l) = codes "nixpool/f/"
key_prefix (Key.root_history t i) = codes "nixpool/rh/"
key_prefix (Key.tree_root t) = codes "nixpool/tr/"
key_prefix (Key.root_index r) = codes "nixpool/ri/"
key_prefix (Key.tree_next_index t) = codes "nixpool/ti/"
key_prefix Key.active_tree_id = codes "nixpool/atid"
key_prefix Key.tree_count = codes "nixpool/tc"
key_prefix (Key.reg_commitment i) = codes "nixpool/reg/c/"
key_prefix (Key.reg_frontier l) = codes "nixpool/reg/f/"
key_prefix Key.reg_root = codes "nixpool/reg/root"
key_prefix Key.reg_next_index = codes "nixpool/reg/ni"
key_prefix (Key.commitment_used c) = codes "nixpool/used/"
key_prefix (Key.reg_commitment_used c) = codes "nixpool/reg/used/"
key_prefix (Key.nullifier n) = codes "nixpool/n/"
key_prefix Key.params = codes "nixpool/params"
key_prefix (Key.vk name) = codes "nixpool/vk/"
key_prefix (Key.auditor_data h) = codes "nixpool/ad/"

-- What the constructors put behind the prefix.
unfoldable pub key_suffix : Key → Bytes
unfolding put_uint64 put_uint32
key_suffix (Key.commitment t i) = put_uint64 t ++ put_uint64 i
key_suffix (Key.frontier t l) = put_uint64 t ++ put_uint32 l
key_suffix (Key.root_history t i) = put_uint64 t ++ put_uint64 i
key_suffix (Key.tree_root t) = put_uint64 t
key_suffix (Key.root_index r) = r
key_suffix (Key.tree_next_index t) = put_uint64 t
key_suffix Key.active_tree_id = []
key_suffix Key.tree_count = []
key_suffix (Key.reg_commitment i) = put_uint64 i
key_suffix (Key.reg_frontier l) = put_uint32 l
key_suffix Key.reg_root = []
key_suffix Key.reg_next_index = []
key_suffix (Key.commitment_used c) = c
key_suffix (Key.reg_commitment_used c) = c
key_suffix (Key.nullifier n) = n
key_suffix Key.params = []
key_suffix (Key.vk name) = name
key_suffix (Key.auditor_data h) = h

-- CommitmentKey, FrontierKey, appendUint64, appendBytes and the rest: prefix, then suffix
unfoldable pub key_bytes : Key → Bytes
unfolding key_prefix key_suffix
key_bytes k = key_prefix k ++ key_suffix k

-- The keys that canonicalise the field element they are derived from.
module _ (ext : External) where
  -- RootIndexKey
  unfoldable pub root_index_key : Bytes → Key
  root_index_key root = Key.root_index (canonical_field_bytes ext root)

  -- CommitmentUsedKey
  unfoldable pub commitment_used_key : Bytes → Key
  commitment_used_key c = Key.commitment_used (canonical_field_bytes ext c)

  -- RegCommitmentUsedKey
  unfoldable pub reg_commitment_used_key : Bytes → Key
  reg_commitment_used_key c = Key.reg_commitment_used (canonical_field_bytes ext c)

  -- NullifierKey
  unfoldable pub nullifier_key : Bytes → Key
  nullifier_key n = Key.nullifier (canonical_field_bytes ext n)
