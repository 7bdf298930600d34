-- ===== src/Rtap/Groups/Known.antt =====
-- The map of groups that querySbsArmedGroup of xdb/impl/xdb_impl_db_rtap.cpp fills.
use rtdbus.Base.{
  ℕ, zero, suc, ◌≤◌, Bytes, c_str, take, replicate, length, ltb, ◌≡◌, refl, ◌∙◌, inl, inr, true,
  none, some, List, [], ◌∷◌, ◌++◌, ◌==◌, ◌⊎◌, if◌then◌else◌, arith, Bool-cases, Option-cases,
}
use rtdbus.Rtap.Groups.{Group, Buffers, read_name, lookup, insert}

-- What a buffer of size + 1 bytes gives of a name: a name that is shorter than size, up to its first
-- NUL, and else its first size bytes and what stands behind them in memory.
abbrev pub reported : ℕ → Bytes → Bytes → Bytes
reported size stray name =
    if ltb (length name) size then c_str name else c_str (take size name ++ stray)

padded :
    (size more : ℕ) (stray name : Bytes)
    → size ≤ more
    → c_str (take size (name ++ replicate more 0) ++ stray) ≡ reported size stray name
unfolding c_str
padded zero more stray [] h = refl
padded zero more stray (x ∷ name) h = ground arith
padded (suc n) zero stray [] h = elim h [ ]
padded (suc n) (suc k) stray [] h = ground arith
padded (suc n) more stray (x ∷ name) h = ground (arith, padded n more stray name)

pub read_name_lem :
    (size : ℕ) (stray name : Bytes) → read_name size stray name ≡ reported size stray name
unfolding read_name
read_name_lem size stray name = padded size size stray name (omega arith)

-- The name under which a group is reported.
abbrev pub label : Buffers → ℕ → Group → Bytes
label buffers g r = reported buffers.label_maxlen (buffers.label_stray g) r.name

pub lookup-insert :
    (known : List (ℕ × Bytes)) (g k : ℕ) (v : Bytes)
    → ((lookup (insert known g v) k ≡ lookup known k))
      ⊎ ((k ≡ g) × (lookup known k ≡ none) × (lookup (insert known g v) k ≡ some v))
lookup-insert known g k v = elim (Option-cases (lookup known g)) [
  | inl new ↦ elim (Bool-cases (k == g)) [
    | inl same ↦ let e : k ≡ g = ground arith in inr (e, rw e new, ground arith)
    | inr apart ↦ inl (ground arith)
  ]
  | inr (w, there) ↦ inl (ground arith)
]

pub insert-keeps :
    (known : List (ℕ × Bytes)) (g k : ℕ) (w v : Bytes)
    → lookup known k ≡ some v
    → lookup (insert known g w) k ≡ some v
insert-keeps known g k w v h = elim (lookup-insert known g k w) [
  | inl same ↦ same ∙ h
  | inr (e, new, there) ↦ absurd (cc (h, new))
]

pub insert-covers :
    (known : List (ℕ × Bytes)) (g : ℕ) (w : Bytes)
    → (v : Bytes) × (lookup (insert known g w) g ≡ some v)
insert-covers known g w = elim (Option-cases (lookup known g)) [
  | inl new ↦ (w, ground arith)
  | inr (v, there) ↦ (v, ground arith)
]

module _ (buffers : Buffers) where
  abbrev pub arm : List (ℕ × Bytes) → ℕ → Group → List (ℕ × Bytes)
  arm known g r = if r.enabled then insert known g (label buffers g r) else known

  pub arm-keeps :
      (known : List (ℕ × Bytes)) (g k : ℕ) (r : Group) (v : Bytes)
      → lookup known k ≡ some v
      → lookup (arm known g r) k ≡ some v
  arm-keeps known g k r v h = elim (Bool-cases r.enabled) [
    | inl on ↦ rw on (insert-keeps known g k (label buffers g r) v h)
    | inr off ↦ rw off h
  ]

  pub arm-covers :
      (known : List (ℕ × Bytes)) (g : ℕ) (r : Group)
      → r.enabled ≡ true
      → (v : Bytes) × (lookup (arm known g r) g ≡ some v)
  arm-covers known g r on = rw on (insert-covers known g (label buffers g r))
