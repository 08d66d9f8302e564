-- ===== src/Symbols/Chains.antt =====
-- One chain of the hash table: what a search finds after an installation, and what `cnt` counts.
use kvm_dmesg.Base.{
  ℕ, ◌<◌, ◌+◌, ◌≡◌, refl, sym, Bool, true, false, Option, none, some, [], ◌∷◌, if◌then◌else◌, arith,
}
use mathlib.Core.Path.{subst, fun_ext}
use mathlib.Core.Option.{or_else}
use kvm_dmesg.Base.Bytes.{Bytes}
use kvm_dmesg.Base.Word.{u8}
use kvm_dmesg.Machine.{Syment, Chain}
use kvm_dmesg.Symbols.{streq, bump, chain_install, chain_search}

pub streq→eq : (a b : Bytes) → streq a b ≡ true → a ≡ b
unfolding streq
streq→eq [] [] h = refl
streq→eq [] (d ∷ ds) h = cc
streq→eq (c ∷ cs) [] h = cc
streq→eq (c ∷ cs) (d ∷ ds) h = ground (arith, streq→eq cs ds)

pub streq_refl : (a : Bytes) → streq a a ≡ true
unfolding streq
streq_refl [] = refl
streq_refl (c ∷ cs) = ground (arith, streq_refl cs)

streq_comm : (a b : Bytes) → streq a b ≡ streq b a
unfolding streq
streq_comm [] [] = refl
streq_comm [] (d ∷ ds) = refl
streq_comm (c ∷ cs) [] = refl
streq_comm (c ∷ cs) (d ∷ ds) = ground (arith, streq_comm cs ds)

-- What a search tells its caller of the entry that it finds.
abbrev pub value_of : Option Syment → Option ℕ
value_of none = none
value_of (some sp) = some sp.value

pub bump-name : (b : Bool) (sp : Syment) → (bump b sp).name ≡ sp.name
bump-name true sp = refl
bump-name false sp = refl

pub bump-value : (b : Bool) (sp : Syment) → (bump b sp).value ≡ sp.value
bump-value true sp = refl
bump-value false sp = refl

-- An installed entry is found only where none was found before.
pub chain_search-install :
    (spn : Syment) (c : Chain) (name : Bytes)
    → value_of (chain_search (chain_install spn c) name)
      ≡ or_else
          (value_of (chain_search c name))
          (if streq spn.name name then some spn.value else none)
unfolding chain_search chain_install or_else
chain_search-install spn [] name = ground arith
chain_search-install spn (sp ∷ rest) name =
    let same = streq sp.name spn.name in
    ground (
      arith,
      chain_search-install (bump same spn) rest name,
      bump-name same spn,
      bump-value same spn,
      bump-name same sp,
      bump-value same sp,
    )

-- The entries of a chain that have a name.
unfoldable pub count : Bytes → Chain → ℕ
count name [] = 0
count name (sp ∷ rest) = (if streq sp.name name then 1 else 0) + count name rest

pub count-install :
    (spn : Syment) (c : Chain) (name : Bytes)
    → count name (chain_install spn c) ≡ count name c + (if streq spn.name name then 1 else 0)
unfolding count chain_install
count-install spn [] name = omega arith
count-install spn (sp ∷ rest) name =
    let same = streq sp.name spn.name in
    ground (arith, count-install (bump same spn) rest name, bump-name same spn, bump-name same sp)

-- Every entry of the chain has in `cnt` what `f` gives for its name, as an `unsigned char`.
abbrev pub CntIs : (Bytes → ℕ) → Chain → Type 0
CntIs f [] = Unit {0}
CntIs f (sp ∷ rest) = (sp.cnt ≡ u8 (f sp.name)) × CntIs f rest

-- Every entry of a chain has in `cnt` how many entries of the chain have its name.
abbrev pub IsCounted : Chain → Type 0
IsCounted c = CntIs (λ name. count name c) c

-- One more entry of that name.
abbrev plus_one : Bytes → (Bytes → ℕ) → Bytes → ℕ
plus_one added f name = f name + (if streq added name then 1 else 0)

bump_cnt :
    (f : Bytes → ℕ) (added : Bytes) (sp : Syment)
    → sp.cnt ≡ u8 (f sp.name)
    → (bump (streq sp.name added) sp).cnt ≡ u8 (plus_one added f sp.name)
bump_cnt f added sp h = ground (arith, streq_comm sp.name added)

bump_total :
    (f : Bytes → ℕ) (spn sp : Syment) (n : ℕ)
    → let same = streq sp.name spn.name in
      u8 (spn.cnt + ((if same then 1 else 0) + n)) ≡ u8 (f spn.name + 1)
      → u8 ((bump same spn).cnt + n) ≡ u8 (f spn.name + 1)
bump_total f spn sp n e = ground (arith, bump-name (streq sp.name spn.name) spn)

chain_install-CntIs :
    (f : Bytes → ℕ) (spn : Syment) (c : Chain)
    → u8 (spn.cnt + count spn.name c) ≡ u8 (f spn.name + 1)
    → spn.cnt < 256
    → CntIs f c
    → CntIs (plus_one spn.name f) (chain_install spn c)
unfolding chain_install count
chain_install-CntIs f spn [] e small h = (ground (arith, streq_refl spn.name), tt)
chain_install-CntIs f spn (sp ∷ rest) e small h =
    let same = streq sp.name spn.name in
    let later =
      chain_install-CntIs f (bump same spn) rest
        (rw (bump-name same spn) (bump_total f spn sp (count spn.name rest) e)) (ground arith)
        h.1 in
    (
      rw (bump-name same sp) (bump_cnt f spn.name sp h.0),
      subst (λ n. CntIs (plus_one n f) (chain_install (bump same spn) rest)) (bump-name same spn)
          later,
    )

-- Installing an entry whose `cnt` is 1 keeps the counts of the whole chain.
pub chain_install-IsCounted :
    (spn : Syment) (c : Chain) → spn.cnt ≡ 1 → IsCounted c → IsCounted (chain_install spn c)
chain_install-IsCounted spn c one h =
    subst (λ f. CntIs f (chain_install spn c)) (fun_ext λ name. sym (count-install spn c name))
      (chain_install-CntIs (λ name. count name c) spn c (ground arith) (omega arith) h)
