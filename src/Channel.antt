-- ===== src/Channel.antt =====
-- The bandwidth model of a flash channel: control/nvmevirt/channel_model.c. A ring of time slots, of which
-- each has credits for the transfers that fall into it.
pub mod Credits
mod Tests
use gpu_fpga_dma.Base.{
  ℕ, zero, suc, ◌+◌, ◌-◌, ◌*◌, ◌/◌, ◌%◌, ◌^◌, min, Bool, true, false, ◌&&◌, ltb, leb, ◌==◌,
  if◌then◌else◌, Array, update,
}
use gpu_fpga_dma.Base.Words.{add32, sub32, mul32, add64, sub64, mul64, u32}

abbrev pub nr_credit_entries : ℕ
nr_credit_entries = 1024 * 96

abbrev pub unit_time_interval : ℕ
unit_time_interval = 4000

abbrev pub unit_xfer_size : ℕ
unit_xfer_size = 128

-- `struct channel_model`
pub record Channel : Type 0 where
  pub cur_time : ℕ
  pub head : ℕ
  pub valid_len : ℕ
  pub max_credits : ℕ
  pub command_credits : ℕ
  pub xfer_lat : ℕ
  pub avail_credits : Array ℕ

-- `MEMSET` over `len` bytes from `from` on.
unfoldable pub memset : Array ℕ → ℕ → ℕ → ℕ → Array ℕ
memset a from value len i = if leb from i && ltb i (from + len) then value % 2 ^ 8 else a i

-- `chmodel_init`, with the bandwidth in MB/s.
unfoldable pub chmodel_init : Channel → ℕ → Channel
unfolding memset
chmodel_init ch bandwidth =
    let mb = mul64 bandwidth (1024 * 1024) in
    let max_credits = u32 (mul64 mb unit_time_interval / 1000000000 / unit_xfer_size) in
    record ch {
      head = 0;
      valid_len = 0;
      cur_time = 0;
      max_credits = max_credits;
      command_credits = 0;
      xfer_lat = u32 (unit_xfer_size * 1000000000 / mb);
      avail_credits = memset ch.avail_credits 0 max_credits nr_credit_entries;
    }

-- The slots that have passed since the last request, at most those in use.
unfoldable pub passed : ℕ → Channel → ℕ
passed now ch =
    min (u32 (sub64 (now / unit_time_interval) (ch.cur_time / unit_time_interval))) ch.valid_len

-- The passed slots are filled up again and the head moves past them.
unfoldable pub move_head : ℕ → Channel → Channel
unfolding passed memset
move_head now ch =
    let offs = passed now ch in
    let last = sub32 nr_credit_entries ch.head in
    let wrapped =
      memset (memset ch.avail_credits ch.head ch.max_credits last) 0 ch.max_credits
        (sub32 offs last) in
    record ch {
      avail_credits =
          if leb nr_credit_entries (add32 ch.head offs)
          then wrapped
          else memset ch.avail_credits ch.head ch.max_credits offs;
      head = add32 ch.head offs % nr_credit_entries;
      cur_time = now;
      valid_len = sub32 ch.valid_len offs;
    }

-- The locals of the loop that spends credits.
pub record Spend : Type 0 where
  pub avail : Array ℕ
  pub pos : ℕ
  pub remaining : ℕ
  pub delay : ℕ

-- One slot's credits are spent.
unfoldable pub spend_slot : Spend → Spend
spend_slot s =
    let consumed = min s.remaining (s.avail s.pos) in
    record s {
      avail = update s.avail s.pos (s.avail s.pos - consumed);
      remaining = s.remaining - consumed;
    }

-- `while (1)` over a ring of `n` slots, with a turn for each.
unfoldable pub spend : ℕ → ℕ → ℕ → Spend → Spend
unfolding spend_slot
spend n zero head s = s
spend n (suc f) head s = elim ((spend_slot s).remaining == 0) [
  | true ↦ spend_slot s
  | false ↦ elim ((s.pos + 1) % n == head) [
    | true ↦ spend_slot s
    | false ↦
        spend n f head (record (spend_slot s) { pos = (s.pos + 1) % n; delay = add32 s.delay 1 })
  ]
]

-- The slots in use up to the last one that was spent from.
unfoldable pub used : ℕ → ℕ → ℕ
used head pos =
    if leb head pos
    then add32 (sub32 pos head) 1
    else sub32 nr_credit_entries (sub32 (sub32 head pos) 1)

-- What the loop leaves becomes the state, and the time at which the transfer is done.
unfoldable pub conclude : Channel → ℕ → ℕ → Spend → ℕ × Channel
conclude ch request_time units s =
    let default_delay = add32 units ch.command_credits / ch.max_credits in
    let len = used ch.head s.pos in
    let late = if ltb default_delay s.delay then s.delay - default_delay else 0 in
    (
      add64 request_time (add64 (mul32 ch.xfer_lat units) (mul64 late unit_time_interval)),
      record ch {
        avail_credits = s.avail;
        valid_len = if ltb ch.valid_len len then len else ch.valid_len;
      },
    )

-- The loop's locals for `units` from the slot `offs` after the head on.
unfoldable pub spend_from : Channel → ℕ → ℕ → Spend
spend_from ch units offs = record {
  avail = ch.avail_credits;
  pos = add32 ch.head offs % nr_credit_entries;
  remaining = add32 units ch.command_credits;
  delay = 0;
}

unfoldable pub transfer : Channel → ℕ → ℕ → ℕ → ℕ × Channel
transfer ch request_time units offs =
    conclude ch request_time units
      (spend nr_credit_entries nr_credit_entries ch.head (spend_from ch units offs))

-- `chmodel_request`, at the wall clock `now`.
unfoldable pub chmodel_request : Channel → ℕ → ℕ → ℕ → ℕ × Channel
chmodel_request ch now request_time length =
    let t = move_head now ch in
    let units = u32 (add64 length (unit_xfer_size - 1) / unit_xfer_size) in
    let offs = u32 (sub64 (request_time / unit_time_interval) (now / unit_time_interval)) in
    if ltb request_time now
    then (request_time, t)
    else if leb nr_credit_entries offs
    then (request_time, t)
    else transfer t request_time units offs
