-- ===== src/Response/Fields.antt =====
-- The last field of a response: what is stored of it.
use libcomms.Base.{ℕ, ◌≤◌, ◌<◌, ◌^◌, ◌≡◌, refl, [], append-nil, arith}
use libcomms.CLib.{decimal}
use libcomms.CLib.Decimal.{strtoul-decimal, length-decimal, decimal-Lacks}
use libcomms.CLib.Memory.{upto_nul-Lacks}
use libcomms.Response.{CommsError, stored, store_field}

-- A printed number of at most nine digits is stored as that number.
pub store_field-decimal :
    (error : CommsError) (max n : ℕ)
    → n < 10 ^ 9
    → n ≤ max
    → store_field error max (decimal n) ≡ stored n
unfolding store_field
store_field-decimal error max n h fits = rw (upto_nul-Lacks (decimal n) (decimal-Lacks 0 n refl)) (
    let reads = rw append-nil at (strtoul-decimal max n [] fits tt) in
    ground (arith, reads, length-decimal 8 n h))
