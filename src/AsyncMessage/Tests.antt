-- ===== src/AsyncMessage/Tests.antt =====
-- A message and a `Stop` in message.hpp.
use code_c.Base.{refl, true, false, some, []}
use code_c.AsyncMessage.{
  idle, Subscriber, new_subscriber, post_begins, post_ends, stores, posts, Reach, start, later,
  Finish,
}
use code_c.AsyncMessage.Latest.{Quiet, Newest, latest_called}

abbrev told_seven : Subscriber
told_seven = record {
  inside = true;
  buffer = some 7;
  stop = false;
  sent = true;
  closed = false;
  loop = idle;
  received = [];
  posting = false;
  stopping = 0;
  alive = true;
}

seven_sent : Reach new_subscriber told_seven
unfolding new_subscriber post_begins post_ends
seven_sent = later (later start (stores 7 refl refl)) (posts refl)

latest_called_example : (t : Subscriber) × Finish told_seven t × Quiet t × Newest 7 t.received
latest_called_example = latest_called told_seven 7 seven_sent refl refl
