-- ===== src/Mc60/Run/Moved.antt =====
-- What a run of Mc60Modem, or several, did: where it arrived, and what it left and added.
use libcomms.Response.{Acks}
use libcomms.Base.{ℕ, ◌≡◌, refl, sym, ap, ◌∙◌, List, ◌++◌, Bytes, append_assoc, subst}
use libcomms.Modem.{Output}
use libcomms.Mc60.Driver.{Modem}
use libcomms.Mc60.Outbox.{Outbox}
use libcomms.Mc60.State.{State}

-- What a run did: the state and the outbox that it left, and the outputs that it added, the newest
-- first.
pub record Moved (m m' : Modem) (s : State) (box : Outbox) (done : List Output) : Type 0 where
  pub arrived : m'.state ≡ s
  pub left : m'.box ≡ box
  pub added : m'.log ≡ done ++ m.log
  pub same_callback : m'.has_callback ≡ m.has_callback
  pub same_sms : m'.sms ≡ m.sms
  pub same_data : m'.new_data_to_receive ≡ m.new_data_to_receive

pub Moved-by :
    (m : Modem) (queue : List Bytes) (acks : Acks) (polls : ℕ) {s : State} {box : Outbox}
    {done : List Output}
    → Moved m
        (record m {
          state = s;
          box = box;
          queue = queue;
          acks = acks;
          ack_query_retry_no = polls;
          log = done ++ m.log;
        })
        s
        box
        done
Moved-by m queue acks polls = record {
  arrived = refl;
  left = refl;
  added = refl;
  same_callback = refl;
  same_sms = refl;
  same_data = refl;
}

pub Moved-trans :
    {m m' m'' : Modem} {s s' : State} {box box' : Outbox} {done done' : List Output}
    → Moved m m' s box done
    → Moved m' m'' s' box' done'
    → Moved m m'' s' box' (done' ++ done)
Moved-trans {m} {done = done} {done' = done'} h h' = record {
  arrived = h'.arrived;
  left = h'.left;
  added = h'.added ∙ ap (λ l. done' ++ l) h.added ∙ sym (append_assoc done' done m.log);
  same_callback = h'.same_callback ∙ h.same_callback;
  same_sms = h'.same_sms ∙ h.same_sms;
  same_data = h'.same_data ∙ h.same_data;
}

pub Moved-leaves :
    {m m' : Modem} {s : State} {box box' : Outbox} {done : List Output}
    → box ≡ box'
    → Moved m m' s box done
    → Moved m m' s box' done
Moved-leaves {m} {m'} {s} {done = done} same h = subst (λ b. Moved m m' s b done) same h
