-- ===== src/Mailbox/Tests.antt =====
-- Mailboxes of one and two places, and what the functions do to them.
use service_lua.Base.{
  ℕ, ◌≡◌, refl, true, false, some, [], ◌∷◌, arith, length-replicate, replicate, inl,
}
use service_lua.Message.{Message, zero_message}
use service_lua.Mailbox.{
  Mailbox, Env, grow_locked, mailbox_try_push, mailbox_try_pop, mailbox_finish_batch,
}
use service_lua.Mailbox.Inv.{IsValid, mailbox_try_pop-IsValid, mailbox_finish_batch-IsValid}
use service_lua.Mailbox.Refine.{contents, dequeue, contents-grow_locked, mailbox_try_pop_refines}
use service_lua.Mailbox.Locked.{IsFair}
use service_lua.Mailbox.{mailbox_delete}
use service_lua.Mailbox.Delete.{payloads, mailbox_delete_lem}
use service_lua.Mailbox.Push.{Returns, mailbox_try_push-Returns}

abbrev numbered : ℕ → Message
numbered n = record zero_message { session = n }

-- Two messages round the end of two places: the mailbox is full.
abbrev full_box : Mailbox
full_box = record {
  items = numbered 2 ∷ numbered 1 ∷ [];
  capacity = 2;
  head = 1;
  tail = 1;
  count = 2;
  initial_capacity = 1;
  overload = 0;
  overload_threshold = 1;
  closed = false;
  scheduled = true;
}

full_box-IsValid : IsValid full_box
full_box-IsValid = ground arith

pop_full_box : (mailbox_try_pop full_box).0 ≡ some (numbered 1)
unfolding mailbox_try_pop
pop_full_box = refl

-- Nobody else is there, and malloc gives what it is asked for.
abbrev alone : Env
alone = record { malloc = λ k n. some (replicate n zero_message); others = λ k b. b }

alone-IsFair : IsFair alone
alone-IsFair = record {
  keeps = λ k b v. v;
  grows = λ k b v. inl refl;
  sized = λ k n g e. cc (length-replicate n zero_message, e);
}

mailbox_try_push-Returns_example :
    Returns alone full_box (numbered 3) (mailbox_try_push alone full_box (numbered 3))
mailbox_try_push-Returns_example =
    mailbox_try_push-Returns alone alone-IsFair full_box full_box-IsValid (numbered 3)

mailbox_try_pop_refines_example :
    let (out, b') = mailbox_try_pop full_box in (out, contents b') ≡ dequeue (contents full_box)
mailbox_try_pop_refines_example = mailbox_try_pop_refines full_box full_box-IsValid

contents-grow_locked_example :
    contents (grow_locked full_box (replicate 4 zero_message)).0 ≡ contents full_box
contents-grow_locked_example =
    contents-grow_locked full_box (replicate 4 zero_message) full_box-IsValid (omega arith)
      (omega arith)

popped_box-IsValid : IsValid (mailbox_try_pop full_box).1
popped_box-IsValid = mailbox_try_pop-IsValid full_box full_box-IsValid

finished_box-IsValid : IsValid (mailbox_finish_batch full_box).1
finished_box-IsValid = mailbox_finish_batch-IsValid full_box full_box-IsValid

mailbox_delete_lem_example : mailbox_delete full_box ≡ payloads (contents full_box)
mailbox_delete_lem_example = mailbox_delete_lem full_box full_box-IsValid
