-- ===== src/Jobs/Examples.antt =====
-- Runs of the jobs on small stores.
use callnow.Base.{String, [], ◌∷◌, none, some, refl, ◌≡◌, arith, if◌then◌else◌, ◌==◌, length, ◌+◌}
use callnow.Messaging.{Store, Message, Carrier, outbound}
use callnow.Auth.Samples.{toy, tables, draw, otp}
use callnow.Jobs.Scheduled.{is_due, conversation_of, run}
use callnow.Jobs.Retention.{Tables, retain}
use callnow.Auth.Otp.{verify_phone_otp}
use callnow.Jobs.Backlog.{count_due, Runs, then_run, stop, runs-drained}
use callnow.Jobs.RetentionLaws.{verify_phone_otp-retain}

abbrev late : String → Message
late mid = record {
  id = mid;
  conversation_id = "c1";
  provider_sid = none;
  provider = "telnyx";
  direction = outbound;
  body = some "hello";
  media_urls = [];
  status = "queued";
  scheduled_at = some 50;
  created_at = 10;
}

abbrev inbox : Store
inbox = record {
  numbers = record {
    numbers = [];
    subscriptions = [];
    plans = [];
    cache = [];
    asked = [];
    released_sids = [];
  };
  conversations =
      record {
        id = "c1";
        user_id = "u1";
        from_number = "+15550001";
        to_number = "+15550002";
        contact_name = none;
        unread_count = 0;
        last_message_at = none;
        created_at = 1;
      }
      ∷ [];
  messages = late "m1" ∷ record (late "m2") { scheduled_at = some 70 } ∷ late "m3" ∷ [];
  counts = [];
  dnc = [];
  outbox = [];
  events = [];
}

abbrev carrier : Carrier
carrier = record {
  name = "telnyx";
  send_message = λ m. if m.to == "+15550002" then some "sid9" else none;
}

one_run : Runs carrier 60 1 inbox (run carrier 60 (λ ms. ms) inbox)
unfolding is_due conversation_of
one_run =
    then_run (λ ms. ms)
      (record {
        limit = refl;
        due = (refl, (refl, tt));
        once = (refl, (refl, tt));
        linked = (refl, (refl, tt));
      })
      stop

runs-drained_example :
    (count_due 60 (run carrier 60 (λ ms. ms) inbox) ≡ 0)
    × (length (run carrier 60 (λ ms. ms) inbox).outbox
          + count_due 60 (run carrier 60 (λ ms. ms) inbox)
        ≡ 2)
unfolding is_due
runs-drained_example =
    runs-drained carrier 60 1 inbox (run carrier 60 (λ ms. ms) inbox) (refl, (refl, (refl, tt)))
      one_run

abbrev stored : Tables
stored = record {
  messages = [];
  voicemails = [];
  auth = record tables { otp_codes = record otp { expires_at = 300000 } ∷ [] };
}

verify_phone_otp-retain_example :
    (verify_phone_otp toy 400001 (draw "new1") "+15550001" "1111" (retain 0 400000 stored).auth).0
    ≡ (verify_phone_otp toy 400001 (draw "new1") "+15550001" "1111" stored.auth).0
verify_phone_otp-retain_example =
    verify_phone_otp-retain toy 400001 400000 0 (draw "new1") "+15550001" "1111" stored
      (omega arith) (refl, tt)
