-- ===== src/Mc60/Opening.antt =====
-- AT+QIOPEN: the command of CONNECT_TO_SERVER and its buffer of 64 bytes.
use libcomms.Base.{
  ℕ, ◌+◌, ◌≤◌, ◌<◌, ◌≡◌, ◌≢◌, refl, ap, ◌∙◌, [], ◌∷◌, ◌++◌, append_assoc, arith, length,
  length-append, take, take-le_append, Bytes, codes, All, Lacks, All-append, zero, suc,
}
use libcomms.CLib.{decimal, snprintf, upto_nul}
use libcomms.CLib.Decimal.{decimal-Lacks}
use libcomms.CLib.Memory.{snprintf_fits, upto_nul-Lacks}
use libcomms.Mc60.Driver.{qiopen_command, qiopen_buf_len}

-- The command but for its last byte, the line feed.
abbrev pub opening : Bytes → ℕ → Bytes
opening address port =
    codes "AT+QIOPEN=\"TCP\",\"" ++ address ++ codes "\",\"" ++ decimal port ++ codes "\"\r"

length-opening :
    (address : Bytes) (port : ℕ)
    → length (opening address port) ≡ 22 + length address + length (decimal port)
length-opening address port =
    let a = codes "AT+QIOPEN=\"TCP\",\"" ++ address in
    let b = a ++ codes "\",\"" in
    omega (
      arith,
      length-append {0} (codes "AT+QIOPEN=\"TCP\",\"") address,
      length-append {0} a (codes "\",\""),
      length-append {0} b (decimal port),
      length-append {0} (b ++ decimal port) (codes "\"\r"),
    )

opening-Lacks :
    (c : ℕ) (address : Bytes) (port : ℕ)
    → Lacks c (codes "AT+QIOPEN=\"TCP\",\"")
    → Lacks c address
    → Lacks c (codes "\",\"")
    → Lacks c (decimal port)
    → Lacks c (codes "\"\r")
    → Lacks c (opening address port)
opening-Lacks c address port h1 h2 h3 h4 h5 =
    let P = λ (x : ℕ). x ≢ c in
    All-append P (codes "AT+QIOPEN=\"TCP\",\"" ++ address ++ codes "\",\"" ++ decimal port) _
      (All-append P (codes "AT+QIOPEN=\"TCP\",\"" ++ address ++ codes "\",\"") _
        (All-append P (codes "AT+QIOPEN=\"TCP\",\"" ++ address) _
          (All-append P (codes "AT+QIOPEN=\"TCP\",\"") _ h1 h2) h3)
        h4)
      h5

All-take : (P : ℕ → Type 0) (n : ℕ) (s : Bytes) → All P s → All P (take n s)
All-take P zero s h = tt
All-take P (suc n) [] h = tt
All-take P (suc n) (x ∷ s) h = (h.0, All-take P n s h.1)

command-opening :
    (address : Bytes) (port : ℕ)
    → Lacks 0 address
    → qiopen_command address port ≡ snprintf qiopen_buf_len (opening address port ++ b'\n' ∷ [])
command-opening address port h =
    rw (upto_nul-Lacks address h) (ap (snprintf qiopen_buf_len) (simp append_assoc))

-- An address without NUL and a port of at most 40 characters together are sent in one whole
-- command line.
pub qiopen_command-whole :
    (address : Bytes) (port : ℕ)
    → Lacks 0 address
    → length address + length (decimal port) ≤ 40
    → upto_nul (qiopen_command address port) ≡ opening address port ++ b'\n' ∷ []
qiopen_command-whole address port h fits =
    let line = opening address port ++ b'\n' ∷ [] in
    rw (command-opening address port h) (
      ap upto_nul (
        snprintf_fits qiopen_buf_len line (
          omega (
            arith,
            length-append {0} (opening address port) (b'\n' ∷ []),
            length-opening address port,
          )))
      ∙ upto_nul-Lacks line (
          All-append (λ c. c ≢ 0) (opening address port) _
            (opening-Lacks 0 address port (omega arith) h (omega arith) (decimal-Lacks 0 port refl)
              (omega arith))
            (omega arith)))

-- For an address and a port of more than 40 characters together, the address without NUL and line
-- feed, the command that is sent has no line feed.
pub qiopen_command-cut :
    (address : Bytes) (port : ℕ)
    → Lacks 0 address
    → Lacks b'\n' address
    → 40 < length address + length (decimal port)
    → Lacks b'\n' (upto_nul (qiopen_command address port))
unfolding snprintf
qiopen_command-cut address port h n long =
    let body = opening address port in
    let lacks =
      opening-Lacks b'\n' address port (omega arith) n (omega arith) (decimal-Lacks b'\n' port refl)
        (omega arith) in
    let nul =
      opening-Lacks 0 address port (omega arith) h (omega arith) (decimal-Lacks 0 port refl)
        (omega arith) in
    rw
      (
        command-opening address port h,
        take-le_append 63 body (b'\n' ∷ []) (omega (arith, length-opening address port)),
        upto_nul-Lacks (take 63 body) (All-take (λ c. c ≢ 0) 63 body nul),
      )
      (All-take (λ c. c ≢ b'\n') 63 body lacks)
