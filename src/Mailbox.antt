-- ===== src/Mailbox.antt =====
-- src/mailbox.c: a mailbox that doubles when it fills. Each function holds the spinlock for its whole
-- body, but for `mailbox_try_push`, whose body is cut at the points where it lets the lock go.
pub mod Inv
pub mod Slots
pub mod Refine
pub mod Delete
pub mod Locked
pub mod Push
pub mod Spinlock
pub mod Threads
pub mod Fair
mod Tests
use service_lua.Base.{
  ℕ, zero, suc, ◌+◌, ◌-◌, ◌*◌, ◌/◌, ◌%◌, ◌^◌, Bool, true, false, ◌&&◌, ◌||◌, not, Option, none,
  some, List, [], ◌∷◌, ◌++◌, if◌then◌else◌, ◌==◌, ltb, leb, get_or, set, replicate, size_mod,
  add_size,
}
use service_lua.Message.{Message, zero_message, message_dispose}

-- `mailbox_result_t`
pub data MailboxResult : Type 0 where
  ok full closed : MailboxResult

-- `struct mailbox`, but for its lock
pub record Mailbox : Type 0 where
  pub items : List Message
  pub capacity : ℕ
  pub head : ℕ
  pub tail : ℕ
  pub count : ℕ
  pub initial_capacity : ℕ
  pub overload : ℕ
  pub overload_threshold : ℕ
  pub closed : Bool
  pub scheduled : Bool

-- The first arguments say whether the two calls of calloc succeed; `none` is NULL.
unfoldable pub mailbox_new : Bool → Bool → ℕ → Option Mailbox
mailbox_new box_ok items_ok capacity =
    if capacity == 0
    then none
    else if not box_ok
    then none
    else if not items_ok
    then none
    else some (record {
      items = replicate capacity zero_message;
      capacity = capacity;
      head = 0;
      tail = 0;
      count = 0;
      initial_capacity = capacity;
      overload = 0;
      overload_threshold = capacity;
      closed = false;
      scheduled = false;
    })

-- The loop of `grow_locked` over `n` rounds from `i` on.
unfoldable pub copy_items : List Message → ℕ → ℕ → ℕ → ℕ → List Message → List Message
copy_items old capacity head i zero grown = grown
copy_items old capacity head i (suc n) grown =
    copy_items old capacity head (i + 1) n
      (set grown i (get_or old (add_size head i % capacity) zero_message))

-- The new mailbox, and the old buffer for the caller to free. `grown` is the fresh buffer, whose
-- contents are not known.
unfoldable pub grow_locked : Mailbox → List Message → Mailbox × List Message
grow_locked box grown = (
  record box {
    items = copy_items box.items box.capacity box.head 0 box.count grown;
    head = 0;
    tail = box.count;
    capacity = (box.capacity * 2) % size_mod;
  },
  box.items,
)

-- The part of `mailbox_try_push` behind its loop, under the lock; the flag is `*notify`.
unfoldable pub push_commit : Mailbox → Message → MailboxResult × Bool × Mailbox
push_commit box m = if box.closed then (MailboxResult.closed, false, box) else (
  MailboxResult.ok,
  not box.scheduled,
  record box {
    items = set box.items box.tail m;
    tail = add_size box.tail 1 % box.capacity;
    count = add_size box.count 1;
    scheduled = true;
  },
)

-- sizeof(message_t), and the largest capacity that may be doubled
abbrev pub sizeof_message : ℕ
sizeof_message = 40

abbrev pub max_capacity : ℕ
max_capacity = (size_mod - 1) / 2 / sizeof_message

-- How a stretch of `mailbox_try_push` between taking and leaving the lock ends: it goes to allocate a
-- buffer for twice the capacity that it saw, or it returns.
pub data Section : Type 0 where
  allocate : (capacity : ℕ) → Section
  return : MailboxResult → Bool → Section

-- From the head of the loop on, with the lock held and `spare` the buffer held, if any.
unfoldable pub push_section : Mailbox → Message → Option (List Message) → Section × Mailbox
push_section box m spare =
    if not box.closed && box.count == box.capacity
    then elim spare [
      | none ↦ (Section.allocate box.capacity, box)
      | some grown ↦
          let (r, notify, box') = push_commit (grow_locked box grown).0 m in
          (Section.return r notify, box')
    ]
    else let (r, notify, box') = push_commit box m in (Section.return r notify, box')

-- After the allocation, with the lock taken again: a spare of the wrong size is given up.
unfoldable pub relock : Mailbox → Message → ℕ → List Message → Section × Mailbox
relock box m capacity spare =
    push_section box m (if box.capacity == capacity then some spare else none)

-- Without the lock: the overflow test, and malloc.
unfoldable pub allocate_spare : (ℕ → Option (List Message)) → ℕ → Option (List Message)
allocate_spare malloc capacity = if leb capacity max_capacity then malloc (capacity * 2) else none

-- What happened elsewhere while the lock was free: one function and one answer of malloc for each
-- time that it is let go.
pub record Env : Type 0 where
  pub others : ℕ → Mailbox → Mailbox
  pub malloc : ℕ → ℕ → Option (List Message)

-- `mailbox_try_push` from a section on; `none` means that the fuel ran out. The counter numbers the
-- times that the lock was let go.
unfoldable pub push_loop :
    Env → ℕ → ℕ → Message → Section × Mailbox → Option (MailboxResult × Bool × Mailbox)
push_loop env fuel k m (Section.return r notify, box) = some (r, notify, box)
push_loop env zero k m (Section.allocate c, box) = none
push_loop env (suc fuel) k m (Section.allocate c, box) =
    let box' = env.others k box in
    elim (allocate_spare (env.malloc k) c) [
      | none ↦ some (MailboxResult.full, false, box')
      | some spare ↦ push_loop env fuel (suc k) m (relock box' m c spare)
    ]

-- A capacity doubles at most 64 times.
abbrev pub push_fuel : ℕ
push_fuel = 64

unfoldable pub mailbox_try_push : Env → Mailbox → Message → Option (MailboxResult × Bool × Mailbox)
mailbox_try_push env box m = push_loop env push_fuel 0 m (push_section box m none)

-- The loop of `mailbox_try_pop` that reports an overload.
unfoldable pub raise_threshold : ℕ → Mailbox → Mailbox
raise_threshold zero box = box
raise_threshold (suc fuel) box = elim (ltb box.overload_threshold box.count) [
  | true ↦ raise_threshold fuel (record box {
    overload = box.count;
    overload_threshold = (box.overload_threshold * 2) % size_mod;
  })
  | false ↦ box
]

-- The message is what goes through `out`; none is `false`.
unfoldable pub mailbox_try_pop : Mailbox → Option Message × Mailbox
mailbox_try_pop box =
    if ltb 0 box.count
    then (
      some (get_or box.items box.head zero_message),
      raise_threshold push_fuel
          (record box { head = add_size box.head 1 % box.capacity; count = box.count - 1 }),
    )
    else (none, record box { scheduled = false; overload_threshold = box.initial_capacity })

unfoldable pub mailbox_finish_batch : Mailbox → Bool × Mailbox
mailbox_finish_batch box =
    let more = not box.closed && ltb 0 box.count in
    (more, if more then box else record box { scheduled = false })

unfoldable pub mailbox_overload : Mailbox → ℕ × Mailbox
mailbox_overload box = (box.overload, record box { overload = 0 })

unfoldable pub mailbox_capacity : Mailbox → ℕ
mailbox_capacity box = box.capacity

unfoldable pub mailbox_close : Mailbox → Mailbox
mailbox_close box = record box { closed = true }

-- The loop of `mailbox_delete`; the list is what it frees. Its fuel is the number of messages.
unfoldable pub dispose_all : ℕ → Mailbox → List ℕ × Mailbox
dispose_all zero box = ([], box)
dispose_all (suc fuel) box =
    let (out, box') = mailbox_try_pop box in
    elim out [
      | none ↦ ([], box')
      | some m ↦ let (rest, box'') = dispose_all fuel box' in ((message_dispose m).0 ++ rest, box'')
    ]

-- `mailbox_delete`: the payloads that it frees. The buffer and the mailbox itself go too.
unfoldable pub mailbox_delete : Mailbox → List ℕ
mailbox_delete box = (dispose_all (box.count + 1) (mailbox_close box)).0
