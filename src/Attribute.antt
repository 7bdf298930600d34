-- ===== src/Attribute.antt =====
-- The values of attributes: DbType_t, Quality_t, AttrVal_t and AttributeInfo_t of
-- xdb/common/xdb_common.hpp, and the sizes of xdb/common/xdb_common.cpp.
use rtdbus.Base.{ℕ, ◌+◌, ◌-◌, ◌%◌, ◌^◌, Bytes, Bool, true, false, [], ◌∷◌, zero, suc}

pub data DbType : Type 0 where
  undef logical int8 uint8 int16 uint16 int32 uint32 int64 uint64 float double : DbType
  bytes bytes4 bytes8 bytes12 bytes16 bytes20 bytes32 bytes48 bytes64 bytes80 : DbType
  bytes128 bytes256 abstime last : DbType

pub data Quality : Type 0 where
  ok suspect error disabled not_found : Quality

-- The member of AttrVal_t that holds a value of the type, in every switch of the sources.
pub data Member : Type 0 where
  val_bool val_int8 val_uint8 val_int16 val_uint16 val_int32 val_uint32 val_int64 : Member
  val_uint64 val_float val_double val_string varchar val_time no_member : Member

abbrev pub member : DbType → Member
member DbType.logical = Member.val_bool
member DbType.int8 = Member.val_int8
member DbType.uint8 = Member.val_uint8
member DbType.int16 = Member.val_int16
member DbType.uint16 = Member.val_uint16
member DbType.int32 = Member.val_int32
member DbType.uint32 = Member.val_uint32
member DbType.int64 = Member.val_int64
member DbType.uint64 = Member.val_uint64
member DbType.float = Member.val_float
member DbType.double = Member.val_double
member DbType.bytes = Member.val_string
member DbType.abstime = Member.val_time
member DbType.undef = Member.no_member
member DbType.last = Member.no_member
member _ = Member.varchar

-- sizeof (wchar_t)
abbrev pub wchar_size : ℕ
wchar_size = 4

unfoldable pub var_size : DbType → ℕ
var_size DbType.bytes = 65535
var_size DbType.bytes4 = 16
var_size DbType.bytes8 = 32
var_size DbType.bytes12 = 48
var_size DbType.bytes16 = 64
var_size DbType.bytes20 = 80
var_size DbType.bytes32 = 128
var_size DbType.bytes48 = 192
var_size DbType.bytes64 = 256
var_size DbType.bytes80 = 320
var_size DbType.bytes128 = 512
var_size DbType.bytes256 = 1024
var_size DbType.abstime = 16
var_size _ = 0

-- The union of the scalars is one number, which a member of n bits reads and writes at its foot (the
-- machine is little-endian); a double or a float is its bits, and val_time two words. The buffer of
-- `varchar` is held up to its size, without the byte behind it.
pub record AttrVal : Type 0 where
  pub fixed : ℕ
  pub varchar : Bytes
  pub val_string : Bytes

-- memset (…, 0, sizeof (AttrVal_t))
abbrev pub no_value : AttrVal
no_value = record { fixed = 0; varchar = []; val_string = [] }

pub record AttributeInfo : Type 0 where
  pub name : Bytes
  pub type : DbType
  pub quality : Quality
  pub value : AttrVal

-- The read of a member of n bits, and its write into the union.
abbrev pub bits : ℕ → AttrVal → ℕ
bits n v = v.fixed % 2 ^ n

abbrev pub put_bits : ℕ → ℕ → AttrVal → AttrVal
put_bits n x v = record v { fixed = v.fixed - v.fixed % 2 ^ n + x % 2 ^ n }

abbrev pub bool_bits : Bool → ℕ
bool_bits false = 0
bool_bits true = 1

-- strncpy (buffer, s, n) into a buffer of n bytes.
unfoldable pub padded : ℕ → Bytes → Bytes
padded zero s = []
padded (suc n) [] = 0 ∷ padded n []
padded (suc n) (x ∷ s) = x ∷ padded n s
