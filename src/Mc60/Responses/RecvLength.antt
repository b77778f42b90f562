-- ===== src/Mc60/Responses/RecvLength.antt =====
-- What ParseRecvLengthCondition accepts, and what it stores.
use libcomms.Base.{
  ℕ, ◌≤◌, ◌<◌, ◌^◌, ◌≡◌, refl, inl, inr, true, none, some, ◌∷◌, ◌++◌, arith, length, Bytes, Lacks,
  All-append, ◌≢◌, Option, leb, Bool-cases,
}
use libcomms.CLib.{begins, split_first, strtoul, upto_nul, decimal}
use libcomms.CLib.Find.{begins-append, search_pos-begins, split_first-append, split_first_sound}
use libcomms.Response.{Checked, refused, stored, failed, parse_recv_size_gt, store_field, max_buf}
use libcomms.Response.Fields.{store_field-decimal}
use libcomms.Mc60.Responses.{qird_pattern, behind_second, behind_first, recv_length_check}

-- A response whose address and protocol hold no comma, and whose length is a number below 10^9, and
-- at most ULONG_MAX, stores that length.
pub recv_length_check-decimal :
    (max : ℕ) (address protocol : Bytes) (n : ℕ)
    → Lacks b',' address
    → Lacks b',' protocol
    → n < 10 ^ 9
    → n ≤ max
    → recv_length_check max (qird_pattern ++ address ++ b',' ∷ (protocol ++ b',' ∷ decimal n))
      ≡ stored n
unfolding recv_length_check
recv_length_check-decimal max address protocol n ha hp h fits =
    let rest = protocol ++ b',' ∷ decimal n in
    let e = qird_pattern ++ address ++ b',' ∷ rest in
    ground (
      arith,
      search_pos-begins e qird_pattern,
      begins-append qird_pattern (address ++ b',' ∷ rest),
      split_first-append b',' (qird_pattern ++ address) rest
          (All-append (λ c. c ≢ b',') qird_pattern address (omega arith) ha),
      split_first-append b',' protocol (decimal n) hp,
      store_field-decimal parse_recv_size_gt max n h fits,
    )

-- The field behind the second comma of a response.
pub record ThirdField (event field : Bytes) : Type 0 where
  pub response : begins event qird_pattern ≡ true
  pub first : Bytes
  pub second : Bytes
  pub splits : event ≡ first ++ b',' ∷ (second ++ b',' ∷ field)
  pub first_lacks : Lacks b',' first
  pub second_lacks : Lacks b',' second

abbrev pub Outcome : ℕ → Bytes → Checked → Type 0
Outcome max event refused = Unit
Outcome max event (stored n) =
    (field : Bytes) × ThirdField event field
    × (length field < max_buf)
    × (n ≡ strtoul max (upto_nul field))
Outcome max event (failed e) =
    (field : Bytes) × ThirdField event field × (max_buf ≤ length field) × (e ≡ parse_recv_size_gt)

store_field-Outcome :
    (max : ℕ) (event field : Bytes)
    → ThirdField event field
    → Outcome max event (store_field parse_recv_size_gt max field)
unfolding store_field
store_field-Outcome max event field f = elim (Bool-cases (leb max_buf (length field))) [
  | inl long ↦ rw long (field, f, ground arith, refl)
  | inr short ↦ rw short (field, f, ground arith, refl)
]

module _ (max : ℕ) (event first rest : Bytes) where
  behind_second-Outcome :
      begins event qird_pattern ≡ true
      → (event ≡ first ++ b',' ∷ rest)
      → Lacks b',' first
      → (o : Option (Bytes × Bytes)) → split_first b',' rest ≡ o
      → Outcome max event (behind_second max o)
  unfolding behind_second
  behind_second-Outcome b e l none h = tt
  behind_second-Outcome b e l (some (second, field)) h =
      let (splits, lacks) = split_first_sound b',' rest h in
      store_field-Outcome max event field (record {
        response = b;
        first = first;
        second = second;
        splits = rw splits at e;
        first_lacks = l;
        second_lacks = lacks;
      })

behind_first-Outcome :
    (max : ℕ) (event : Bytes)
    → begins event qird_pattern ≡ true
    → (o : Option (Bytes × Bytes)) → split_first b',' event ≡ o
    → Outcome max event (behind_first max o)
unfolding behind_first
behind_first-Outcome max event b none h = tt
behind_first-Outcome max event b (some (first, rest)) h =
    let (splits, lacks) = split_first_sound b',' event h in
    behind_second-Outcome max event first rest b splits lacks (split_first b',' rest) refl

-- A length is stored only of a response, it is the value of the field behind the second comma, and
-- that field fits the buffer of ten bytes with its NUL. The error handler is called only for a
-- response whose field does not fit.
pub recv_length_check_sound :
    (max : ℕ) (event : Bytes) → Outcome max event (recv_length_check max event)
unfolding recv_length_check
recv_length_check_sound max event = ground (
  arith,
  search_pos-begins event qird_pattern,
  λ (b : begins event qird_pattern ≡ true).
      behind_first-Outcome max event b (split_first b',' event) refl,
)
