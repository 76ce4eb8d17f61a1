-- ===== src/Xudp/Host/Poll/Tests.antt =====
-- A poll at a concrete input.
use gekkota.Base.{◌≡◌, arith, [], ◌∷◌, some, true, false, ok, stuck, replicate, little_endian}
use gekkota.Xudp.Samples.{client, endpoint}
use gekkota.Xudp.Client.Outgoing.{clean}
use gekkota.Xudp.Client.Close.{nought}
use gekkota.Xudp.Host.Messages.{World}
use gekkota.Xudp.Host.Receiving.{drained, broken}
use gekkota.Xudp.Host.Poll.{Polling, Moment, Circumstances, then_next, dispatched, poll_round, poll}
use gekkota.Xudp.Host.Hasty.{poll-hasty}

abbrev world : World
world = record {
  settings = record { host_mtu = 1400; incoming_bandwidth = 0; outgoing_bandwidth = 0 };
  protocol_id = 7;
  now = 1000;
  wants_event = true;
  alloc_event = true;
  alloc_channels = true;
  alloc_acknowledgement = clean;
  flush_host = λ c. (c, nought);
  receipt = record {
    memory = record {
      alloc = λ n initialize. ok (record { address = 8; bytes = replicate n 7 });
      realloc = λ b n initialize. ok (record { address = 8; bytes = replicate n 7 });
    };
    alloc_packet = true;
    alloc_message = true;
    address = 16;
    sender = endpoint;
  };
}

abbrev circumstances : Circumstances
circumstances = record {
  world = world;
  transmit = λ t. true;
  inflate = λ p. ok p;
  alloc_ping = true;
  keeps = λ p. true;
  leave = λ c d. stuck;
  alloc_announcements = [];
  fuel = 50;
}

abbrev polling : Polling
polling = record {
  host = record {
    incoming_bandwidth = 0;
    outgoing_bandwidth = 0;
    bandwidth_throttle_epoch = 900;
    reconfigure_bandwidth = false;
    clients = client ∷ [];
  };
  last_serviced = 0;
  transmissions = [];
}

-- The socket would have something to receive after the first round.
abbrev first : Moment
first = record { now = 1000; arrivals = drained; after = 1002; ready = some true }

abbrev second : Moment
second = record { now = 1500; arrivals = broken; after = 1501; ready = some false }

poll-hasty_example :
    poll little_endian circumstances (some 5000) (first ∷ second ∷ []) polling
    ≡ then_next
        (dispatched little_endian circumstances polling)
        (poll_round little_endian circumstances first)
poll-hasty_example =
    poll-hasty little_endian circumstances 5000 first (second ∷ []) polling (omega arith)
