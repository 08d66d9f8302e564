-- ===== src/Printk/Vmcoreinfo/Missing.antt =====
-- A key that the guest's vmcoreinfo does not have: the buffer has no NUL behind its last newline.
use kvm_dmesg.Base.{◌≡◌, false, [], ◌∷◌, ◌++◌, take}
use kvm_dmesg.Base.Bytes.{Bytes}
use kvm_dmesg.Base.Run.{fault}
use kvm_dmesg.Printk.Vmcoreinfo.{
  vmcoreinfo_read_string, datatype_info, Request, struct_size_request, member_offset_request,
  request_key,
}
use kvm_dmesg.Text.Search.{strstr_overreads, NoNul, occurs}

NoNul-newline : (text : Bytes) → NoNul text → NoNul (text ++ b'\n' ∷ [])
NoNul-newline [] h = (λ e. cc, tt)
NoNul-newline (c ∷ cs) h = (h.0, NoNul-newline cs h.1)

-- The string that the buffer is searched for: the request and an equals sign.
abbrev pub search_key : Request → Bytes → Bytes → Bytes
search_key datatype name member = take 79 (request_key datatype name member ++ b'=' ∷ [])

-- If the guest's vmcoreinfo has no NUL and not the key that is asked for, datatype_info reads past
-- the end of its buffer.
pub datatype_info_overreads :
    (text name member : Bytes) (datatype : Request)
    → NoNul text
    → occurs (search_key datatype name member) (text ++ b'\n' ∷ []) ≡ false
    → datatype_info (text ++ b'\n' ∷ []) name member datatype ≡ fault
unfolding datatype_info vmcoreinfo_read_string
datatype_info_overreads text name member struct_size_request clean h =
    rw (strstr_overreads (text ++ b'\n' ∷ []) _ _ (NoNul-newline text clean) h)
datatype_info_overreads text name member member_offset_request clean h =
    rw (strstr_overreads (text ++ b'\n' ∷ []) _ _ (NoNul-newline text clean) h)
