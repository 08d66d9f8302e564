-- ===== src/Tests/Vmcoreinfo.antt =====
-- A vmcoreinfo of two lines.
use kvm_dmesg.Base.{◌≡◌, refl, ◌++◌, ◌∷◌, [], arith, false, some}
use kvm_dmesg.Base.Bytes.{Bytes}
use kvm_dmesg.Base.Run.{ok, fault}
use kvm_dmesg.Printk.Vmcoreinfo.{
  datatype_info, struct_size_request, member_offset_request, vmcoreinfo_read_string, value_before,
  value_behind, decimal, strtol,
}
use kvm_dmesg.Printk.Vmcoreinfo.Missing.{search_key, datatype_info_overreads}
use kvm_dmesg.Printk.Vmcoreinfo.Value.{key_line, datatype_info-dec}
use kvm_dmesg.Text.{codes}
use kvm_dmesg.Text.Decimal.{dec, dec_digits}
use kvm_dmesg.Text.Search.{IsFirst, NoNul, is_prefix, occurs, strstr, starts_with, strstr_first}

abbrev version : Bytes
version = codes "OS=6" ++ b'\n' ∷ []

version-IsFirst :
    IsFirst (codes "SIZE(printk_info)=") version (codes "SIZE(printk_info)=88" ++ b'\n' ∷ [])
unfolding is_prefix
version-IsFirst =
    (λ e. cc, refl, (λ e. cc, refl, (λ e. cc, refl, (λ e. cc, refl, (λ e. cc, refl, tt)))))

version-NoNul : NoNul version
version-NoNul = (λ e. cc, (λ e. cc, (λ e. cc, (λ e. cc, (λ e. cc, tt)))))

key_missing :
    occurs (search_key member_offset_request (codes "prb") (codes "id")) (version ++ b'\n' ∷ [])
    ≡ false
unfolding occurs is_prefix
key_missing = refl

program : Unit {0}
unfolding value_before value_behind vmcoreinfo_read_string decimal strtol datatype_info starts_with
    strstr
program = tt

size_run :
    datatype_info
      (version ++ (codes "SIZE(printk_info)=88" ++ b'\n' ∷ []))
      (codes "printk_info")
      []
      struct_size_request
    ≡ ok 88
unfolding program
size_run = refl

datatype_info-dec_example :
    datatype_info
      (version ++ key_line struct_size_request (codes "printk_info") [] 88 [])
      (codes "printk_info")
      []
      struct_size_request
    ≡ ok 88
unfolding dec dec_digits
datatype_info-dec_example =
    datatype_info-dec version (codes "printk_info") [] [] struct_size_request 88 (omega arith)
      version-IsFirst

datatype_info_overreads_example :
    datatype_info (version ++ b'\n' ∷ []) (codes "prb") (codes "id") member_offset_request ≡ fault
datatype_info_overreads_example =
    datatype_info_overreads version (codes "prb") (codes "id") member_offset_request version-NoNul
      key_missing

strstr_first_example :
    strstr
      (version ++ (codes "SIZE(printk_info)=" ++ (codes "88" ++ b'\n' ∷ [])))
      (codes "SIZE(printk_info)=")
    ≡ ok (some (codes "SIZE(printk_info)=" ++ (codes "88" ++ b'\n' ∷ [])))
strstr_first_example =
    strstr_first version b'S' (codes "IZE(printk_info)=") (codes "88" ++ b'\n' ∷ []) version-IsFirst
