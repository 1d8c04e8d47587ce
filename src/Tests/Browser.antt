-- ===== src/Tests/Browser.antt =====
-- What the browser of a client reads in a run of the whole program.
use beacon_guard.Prelude.{
  ℕ, ◌<◌, ◌≡◌, refl, ◌⊎◌, List, [], ◌∷◌, map, length, some, Bytes, lookup, insert, IsSublist,
  digits,
}
use beacon_guard.Channel.{try_send}
use beacon_guard.Processor.{Alert}
use beacon_guard.Server.{
  client_capacity, new_server, subscribe, consume, add_alert, broadcast, take_message,
}
use beacon_guard.Server.Json.{
  int_text, escape, escape_ascii, wide_char, starts_three, starts_four, quote, detail_json,
  details_json, add_member, sorted_insert, alert_json,
}
use beacon_guard.Server.Message.{message_of, json_text}
use beacon_guard.Server.Frames.{new_reader, read_all}
use beacon_guard.Server.Framing.{Plain}
use beacon_guard.System.{
  System, new_system, deliver, Reach, here, next, processed, delivered, connected, written,
}
use beacon_guard.System.Streams.{taken}
use beacon_guard.System.Browser.{given_since, written_for, browser_reads}
use beacon_guard.Tests.Samples.{whole, enforcing, input, everywhere}
use beacon_guard.Tests.Streams.{
  decode, began, joined, raised, traced, traced_alert, traced_alerts, traced_lem, trace_sample,
  unseen,
}
use beacon_guard.Tests.Frames.{float_text, time_text, directives, floats-OneLine}

abbrev framed : Alert ℕ → Bytes
framed a = message_of float_text time_text a

abbrev shown : System ℕ
shown = deliver framed raised

-- The browser has been written its message.
abbrev finished : System ℕ
finished = record shown { server = (take_message 1 shown.server).1 }

abbrev road : Reach whole everywhere framed decode began finished
road =
    next
      (next
        (next (next here (connected began 1 unseen))
          (processed joined (input trace_sample) traced traced_lem))
        (delivered raised))
      (written shown 1)

emptied : lookup 1 finished.server.clients ≡ some []
unfolding deliver take_message new_system new_server subscribe consume add_alert broadcast try_send
    lookup insert
emptied = rw traced_alerts refl

traced-Plain : Plain float_text time_text (traced_alert ∷ [])
unfolding message_of alert_json details_json detail_json add_member sorted_insert quote escape
    escape_ascii wide_char starts_three starts_four int_text digits
traced-Plain = (refl, tt)

road-Plain : Plain float_text time_text (given_since whole everywhere framed decode 1 road)
road-Plain = rw traced_alerts traced-Plain

browser_reads_example :
    (alerts : List (Alert ℕ)) × (read_all new_reader
        (written_for float_text time_text directives (taken whole everywhere framed decode 1 road))
      ≡ record new_reader { events = map (json_text float_text time_text) alerts })
    × IsSublist alerts (given_since whole everywhere framed decode 1 road)
    × ((alerts ≡ given_since whole everywhere framed decode 1 road)
        ⊎ (client_capacity < length (given_since whole everywhere framed decode 1 road)))
browser_reads_example =
    browser_reads float_text time_text whole everywhere decode 1 directives enforcing 0 1 road
      emptied floats-OneLine road-Plain
