-- ===== src/Gcs/Codec.antt =====
-- The serialized form of a filter of nogoutil/gcs/gcs.go, read back.
use nogocommons.Base.{ℕ, ◌≡◌, ◌^◌, arith, inl, inr, Bytes, IsU64, ltb, leb, if◌then◌else◌}
use nogocommons.Wire.VarIntLaws.{read-write_var_int}
use nogocommons.Gcs.Filter.{n_too_big, p_too_big, filter_of, n_bytes, from_n_bytes}

-- `FromNBytes` reads back the filter that `NBytes` wrote if its count fits into 32 bits and P is
-- at most 32, and answers which of the two is too big otherwise.
pub from_n_bytes-n_bytes :
    (n p m : ℕ) (bs : Bytes)
    → IsU64 n
    → from_n_bytes p m (n_bytes (filter_of n p m bs)) ≡ (
        if leb (2 ^ 32) n
        then inl n_too_big
        else if ltb 32 p
        then inl p_too_big
        else inr (filter_of n p m bs))
unfolding from_n_bytes n_bytes
from_n_bytes-n_bytes n p m bs h = ground (arith, read-write_var_int n bs)
