-- ===== src/Message/Tests.antt =====
-- A publisher and a subscriber of topic "t" in message.hpp.
use code_c.Base.{ℕ, ◌≡◌, refl, true, some, List, [], ◌∷◌, ◌++◌, arith, replicate}
use code_c.Base.Int.{pos, negsuc}
use code_c.ShmBlock.{Os, History, new_block}
use code_c.ShmBlock.Uncounted.{
  buffered, construct_shared, map_shared, truncate_shared, truncated, opened_shared, create,
  open_existing,
}
use code_c.Text.{text_eq}
use code_c.Discover.{Answers, is_zero, not_negative, started, new_discover, copied, packet, recv}
use code_c.Message.{
  Publisher, Subscriber, number_of_blocks, size_of_block, sub_topic, pub_topic, publisher_with,
  new_publisher, publish, notification, notify_read,
}
use code_c.Message.Notified.{Announced, hears_all, publish-addresses}
use code_c.Message.Woken.{Datagram}

abbrev answers : Answers
answers = record {
  init_server = pos 0;
  init_client = pos 0;
  group_address = pos 0;
  bind = pos 0;
  membership = pos 0;
  recv_start = pos 0;
}

abbrev machine : Os
machine = record {
  shm_open = λ h flags. some 3;
  errno = λ h. 0;
  ftruncate = λ h fd len. true;
  fstat = λ h fd. some 33554880;
  mmap = λ h len fd. 4096;
  fields_at = λ h p. (size_of_block, number_of_blocks);
  refcount = λ h p. pos 0;
}

abbrev topic : List ℕ
topic = 116 ∷ []

abbrev address : List ℕ
address = replicate 16 7

-- The subscriber announces itself, and a datagram under another topic comes in.
abbrev announced : List Announced
announced =
    record {
      topic = sub_topic topic;
      value = address;
      buffer = packet (sub_topic topic) address ++ (9 ∷ 9 ∷ []);
    }
    ∷ record { topic = 120 ∷ []; value = address; buffer = packet (120 ∷ []) address }
    ∷ []

abbrev publisher : Publisher
publisher = record {
  running = true;
  discover = recv (sub_topic topic) 0 (record { buffer = []; callbacks = [] });
  subs = [];
  shm = (create machine (new_block number_of_blocks size_of_block) []).block;
}

publish-addresses_example :
    (q : Publisher) × (hears_all announced publisher ≡ some q)
    × ((publish q 4544).1 ≡ (address, notify_read ∷ []) ∷ [])
unfolding new_block buffered construct_shared map_shared truncate_shared truncated opened_shared
    create new_discover started is_zero not_negative new_publisher publisher_with sub_topic packet
    copied text_eq notification
publish-addresses_example =
    publish-addresses machine []
      (create machine (new_block number_of_blocks size_of_block) []).history answers [] true topic
      [] (packet (pub_topic topic) []) publisher announced 4544 refl
      ((ground arith, omega arith, refl), ((ground arith, omega arith, refl), tt))

abbrev subscriber : Subscriber
subscriber = record {
  running = true;
  topic = topic;
  address = address;
  discover = recv (pub_topic topic) 1 (record { buffer = []; callbacks = [] });
  shm = (open_existing machine (new_block number_of_blocks size_of_block) []).block;
  received = [];
}

abbrev opening : History
opening = (open_existing machine (new_block number_of_blocks size_of_block) []).history

abbrev datagrams : List Datagram
datagrams =
    record { size = 1; byte = 114; lock = pos 5 }
    ∷ record { size = 1; byte = 111; lock = negsuc 0 }
    ∷ record { size = 0; byte = 0; lock = negsuc 0 }
    ∷ []
