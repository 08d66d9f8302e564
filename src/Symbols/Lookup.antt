-- ===== src/Symbols/Lookup.antt =====
-- The hash table of symbols.c as a map from names to addresses.
use kvm_dmesg.Base.{
  ℕ, zero, suc, ◌-◌, ◌*◌, ◌/◌, ◌%◌, ◌<◌, ◌≡◌, refl, sym, ap, ◌∙◌, Bool, true, false, ◌&&◌, leb, ◌^◌,
  ◌≤◌, lt→leb, Option, none, some, List, [], ◌∷◌, if◌then◌else◌, arith, Bool-cases, inl, inr, ◌≢◌,
  length, get_elem?, lt-get_elem?, get_elem?-lt,
}
use mathlib.Core.Option.{or_else, some-injective}
use mathlib.Core.Path.{subst}
use mathlib.Core.Bool.{xor}
use native.Mathlib.Nat.{mul-le-mul_right}
use native.Mathlib.Decide.{ℕ_discrete}
use kvm_dmesg.Base.Bytes.{Bytes, byte_at-some}
use kvm_dmesg.Base.Run.{Run, ok, ◌>>=◌, Returns}
use kvm_dmesg.Base.Word.{u32}
use kvm_dmesg.Machine.{Syment, Chain}
use kvm_dmesg.Symbols.{
  streq, chain_install, chain_search, set_chain, chain_at, symname_hash_index, symname_hash_install,
  symname_hash_search, symname_hash_size, index_of,
}
use kvm_dmesg.Symbols.Chains.{
  streq→eq, value_of, chain_search-install, IsCounted, chain_install-IsCounted,
}
use Prim.Native.Nat.{bit_xor}

-- Bytes of ASCII only.
abbrev pub is_ascii : Bytes → Bool
is_ascii [] = true
is_ascii (c ∷ cs) = leb c 127 && is_ascii cs

-- The name's index is in the table.
abbrev pub IsIndexed : Bytes → Type 0
IsIndexed name = (i : ℕ) × (symname_hash_index name ≡ ok i) × (i < symname_hash_size)

is_ascii-get_elem? :
    (s : Bytes) (i c : ℕ) → is_ascii s ≡ true → get_elem? s i ≡ some c → leb c 127 ≡ true
is_ascii-get_elem? [] i c h e = cc
is_ascii-get_elem? (d ∷ ds) zero c h e = ground (arith, some-injective _ _ e)
is_ascii-get_elem? (d ∷ ds) (suc i) c h e = is_ascii-get_elem? ds i c (ground arith) e

product_small : (a b : ℕ) → leb a 127 ≡ true → leb b 127 ≡ true → a * b < 2 ^ 31
product_small a b p q =
    let low : a ≤ 127 = ground arith in
    let side : b ≤ 127 = ground arith in
    let first : a * b ≤ 127 * b = mul-le-mul_right b low in omega arith

-- A name of ASCII bytes that is not empty has an index in the table.
pub index_total : (name : Bytes) → name ≢ [] → is_ascii name ≡ true → IsIndexed name
unfolding symname_hash_index index_of xor
index_total [] h ascii = absurd (h refl)
index_total (c ∷ cs) h ascii =
    let name = c ∷ cs in
    let (last, e) = lt-get_elem? name (length name - 1) (omega arith) in
    let (middle, f) = lt-get_elem? name (length name / 2) (omega arith) in
    let low : leb c 127 ≡ true = is_ascii-get_elem? name 0 c ascii refl in
    let low_last = is_ascii-get_elem? name (length name - 1) last ascii e in
    let low_middle = is_ascii-get_elem? name (length name / 2) middle ascii f in
    let small = product_small last middle low_last low_middle in
    let same : u32 (last * middle) ≡ last * middle = omega arith in
    (
      bit_xor c (last * middle) % 512,
      rw (
        byte_at-some name 0 c refl,
        byte_at-some name (length name - 1) last e,
        byte_at-some name (length name / 2) middle f,
        low,
        low_last,
        low_middle,
        same,
        lt→leb (2 ^ 31) c (ground arith),
        lt→leb (2 ^ 31) (last * middle) small,
      ),
      omega arith,
    )

pub index_at : (c : ℕ) (cs : Bytes) → is_ascii (c ∷ cs) ≡ true → IsIndexed (c ∷ cs)
index_at c cs ascii = index_total (c ∷ cs) (λ e. cc) ascii

pub length-set_chain : (t : List Chain) (i : ℕ) (c : Chain) → length (set_chain t i c) ≡ length t
unfolding set_chain
length-set_chain [] i c = refl
length-set_chain (d ∷ ds) zero c = refl
length-set_chain (d ∷ ds) (suc i) c = ap suc (length-set_chain ds i c)

get_elem?-set_chain :
    (t : List Chain) (i : ℕ) (c : Chain) → i < length t → get_elem? (set_chain t i c) i ≡ some c
unfolding set_chain
get_elem?-set_chain [] i c h = absurd (omega arith)
get_elem?-set_chain (d ∷ ds) zero c h = refl
get_elem?-set_chain (d ∷ ds) (suc i) c h = get_elem?-set_chain ds i c (omega arith)

get_elem?-set_chain_ne :
    (t : List Chain) (i j : ℕ) (c : Chain) → i ≢ j → get_elem? (set_chain t i c) j ≡ get_elem? t j
unfolding set_chain
get_elem?-set_chain_ne [] i j c h = refl
get_elem?-set_chain_ne (d ∷ ds) zero zero c h = absurd (h refl)
get_elem?-set_chain_ne (d ∷ ds) zero (suc j) c h = refl
get_elem?-set_chain_ne (d ∷ ds) (suc i) zero c h = refl
get_elem?-set_chain_ne (d ∷ ds) (suc i) (suc j) c h =
    get_elem?-set_chain_ne ds i j c (λ e. h (ap suc e))

-- The address that a search finds.
unfoldable pub address_of : List Chain → Bytes → Run (Option ℕ)
unfolding symname_hash_search
address_of table name = do sp ← symname_hash_search table name; ok (value_of sp)

-- The table has its 512 chains, and `cnt` is right in each.
pub record IsTable (table : List Chain) : Type 0 where
  pub width : length table ≡ symname_hash_size
  pub counted : (i : ℕ) (c : Chain) → get_elem? table i ≡ some c → IsCounted c

pub address_of_lem :
    (table : List Chain) (name : Bytes) {i : ℕ} {c : Chain}
    → symname_hash_index name ≡ ok i
    → get_elem? table i ≡ some c
    → address_of table name ≡ ok (value_of (chain_search c name))
unfolding address_of symname_hash_search chain_at
address_of_lem table name e h = rw (e, ◌>>=◌, h)

-- A later entry under a name does not hide an earlier one.
abbrev pub first_of : Option ℕ → Syment → Bytes → Option ℕ
first_of old spn name = or_else old (if streq spn.name name then some spn.value else none)

first_of-other :
    (old : Option ℕ) (spn : Syment) (name : Bytes)
    → streq spn.name name ≡ false
    → old ≡ first_of old spn name
unfolding or_else
first_of-other none spn name h = rw h
first_of-other (some v) spn name h = refl

-- Names of different indices differ.
streq_apart :
    (a b : Bytes) {i j : ℕ}
    → symname_hash_index a ≡ ok i
    → symname_hash_index b ≡ ok j
    → i ≢ j
    → streq a b ≡ false
streq_apart a b {i} {j} f g apart = elim (Bool-cases (streq a b)) [
  | inr differ ↦ differ
  | inl same ↦
      let both : ok i ≡ ok j = sym f ∙ ap symname_hash_index (streq→eq a b same) ∙ g in
      absurd (apart (cc))
]

module _ (table : List Chain) (valid : IsTable table) (spn : Syment) (i : ℕ) (c : Chain)
    (at : symname_hash_index spn.name ≡ ok i) (here : get_elem? table i ≡ some c) where
  abbrev installed : List Chain
  installed = set_chain table i (chain_install (record spn { cnt = 1 }) c)

  install_runs : symname_hash_install table spn ≡ ok installed
  unfolding symname_hash_install chain_at
  install_runs = rw (at, ◌>>=◌, here)

  get_elem?-installed : get_elem? installed i ≡ some (chain_install (record spn { cnt = 1 }) c)
  get_elem?-installed = get_elem?-set_chain table i _ (get_elem?-lt table i c here)

  installed-IsTable : IsTable installed
  installed-IsTable = record {
    width = length-set_chain table i _ ∙ valid.width;
    counted = λ j d h. elim (ℕ_discrete i j) [
      | no apart ↦ valid.counted j d (sym (get_elem?-set_chain_ne table i j _ apart) ∙ h)
      | yes same ↦
          subst IsCounted
            (some-injective _ _
              (sym get_elem?-installed ∙ subst (λ k. get_elem? installed k ≡ some d) (sym same) h))
            (chain_install-IsCounted (record spn { cnt = 1 }) c refl (valid.counted i c here))
    ];
  }

  installed-address :
      (name : Bytes)
      → IsIndexed name
      → (old : Option ℕ) × (address_of table name ≡ ok old)
        × (address_of installed name ≡ ok (first_of old spn name))
  installed-address name (j, f, below) =
      let (d, g) = lt-get_elem? table j (omega (arith, valid.width)) in
      elim (ℕ_discrete i j) [
        | no apart ↦ (
          value_of (chain_search d name),
          address_of_lem table name f g,
          address_of_lem installed name f (get_elem?-set_chain_ne table i j _ apart ∙ g)
              ∙ ap ok (first_of-other _ spn name (streq_apart spn.name name at f apart)),
        )
        | yes same ↦
            let f' : symname_hash_index name ≡ ok i = f ∙ ap ok (sym same) in
            (
              value_of (chain_search c name),
              address_of_lem table name f' here,
              address_of_lem installed name f' get_elem?-installed
                  ∙ ap ok (chain_search-install (record spn { cnt = 1 }) c name),
            )
      ]

-- The installation of an entry whose name has an index: the table stays valid, and at all names that
-- have an index the entry stands behind what was found before.
pub install-first_of :
    (table : List Chain) (spn : Syment)
    → IsTable table
    → IsIndexed spn.name
    → Returns (symname_hash_install table spn) λ t.
      IsTable t
      × ((name : Bytes)
          → IsIndexed name
          → (old : Option ℕ) × (address_of table name ≡ ok old)
            × (address_of t name ≡ ok (first_of old spn name)))
install-first_of table spn valid (i, at, below) =
    let (c, here) = lt-get_elem? table i (omega (arith, valid.width)) in
    (
      installed table valid spn i c at here,
      install_runs table valid spn i c at here,
      (
        installed-IsTable table valid spn i c at here,
        λ name indexed. installed-address table valid spn i c at here name indexed,
      ),
    )

-- Installing an entry whose name is not empty and of ASCII bytes in a valid table (512 chains, and
-- in each entry's cnt how many entries of its chain have its name, modulo 256) succeeds, keeps the
-- table valid, and adds the entry to the map behind what is there: at every name that is not empty
-- and of ASCII bytes, an address found before is found still, and else the entry's at its own name.
pub install-IsTable :
    (table : List Chain) (spn : Syment) (name : Bytes)
    → IsTable table
    → spn.name ≢ []
    → is_ascii spn.name ≡ true
    → name ≢ []
    → is_ascii name ≡ true
    → Returns (symname_hash_install table spn) λ t.
      IsTable t
      × (old : Option ℕ) × (address_of table name ≡ ok old)
      × (address_of t name ≡ ok (first_of old spn name))
install-IsTable table spn name valid named ascii asked asked_ascii =
    let (t, run, (good, reads)) =
      install-first_of table spn valid (index_total spn.name named ascii) in
    let (old, before, after) = reads name (index_total name asked asked_ascii) in
    (t, run, (good, old, before, after))
