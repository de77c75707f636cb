-- ===== src/Channel/Tests.antt =====
-- A channel near the end of its ring.
use gpu_fpga_dma.Base.{arith}
use gpu_fpga_dma.Channel.{Channel, nr_credit_entries, spend, spend_from, chmodel_request}
use gpu_fpga_dma.Channel.Credits.{Spent, IsChannel, transfer-Spent, chmodel_request-IsChannel}

abbrev channel : Channel
channel = record {
  cur_time = 4000;
  head = 98303;
  valid_len = 2;
  max_credits = 25;
  command_credits = 1;
  xfer_lat = 152;
  avail_credits = λ _. 25;
}

channel-IsChannel : IsChannel channel
channel-IsChannel = record { head_in = omega arith; used_in = omega arith }

transfer-Spent_example :
    Spent nr_credit_entries 98303
      (spend_from channel 32 3)
      (spend nr_credit_entries nr_credit_entries 98303 (spend_from channel 32 3))
transfer-Spent_example = transfer-Spent channel 32 3 channel-IsChannel

chmodel_request-IsChannel_example : IsChannel (chmodel_request channel 9000 17000 4096).1
chmodel_request-IsChannel_example =
    chmodel_request-IsChannel channel 9000 17000 4096 channel-IsChannel
