-- ===== src/Swp/Link/Tests.antt =====
-- Runs of a link of swp, and its theorems at concrete inputs.
use gnatsd.Prelude.{List, [], ◌∷◌, some, ◌≡◌, refl, map, arith}
use gnatsd.Swp.Receiver.Slots.{contents}
use gnatsd.Swp.Retree.Model.{list_tree, list_tree-IsRbtree}
use gnatsd.Swp.Sender.{KeepAlive}
use gnatsd.Swp.Link.{Link, LinkEvent, offer, wake, arrive, acked, read, new_link, link_run}
use gnatsd.Swp.Link.Whole.{Transfers, link_run-Transfers}

-- Three keepalives may fail, of which one is due every 10.
abbrev keep_alive : KeepAlive
keep_alive = record { started = 0; interval = 10; failures = 3 }

-- Packet 1 overtakes packet 0, which is lost, sent again as the third, and arrives twice; then both
-- are read, and the ack of the reading makes room for packet 2.
abbrev session : List LinkEvent
session =
    offer 0 5 (10 ∷ [])
    ∷ offer 1 9 (11 ∷ [])
    ∷ arrive 1
    ∷ read
    ∷ wake 6 (λ i. (7, 20))
    ∷ arrive 2
    ∷ arrive 2
    ∷ read
    ∷ acked 8 0
    ∷ acked 8 1
    ∷ offer 9 9 (12 ∷ [])
    ∷ arrive 3
    ∷ []

session_read :
    (l : Link list_tree) × (link_run list_tree session (new_link list_tree keep_alive 2 100)
      ≡ some l)
    × (map contents l.client ≡ some (10 ∷ []) ∷ some (11 ∷ []) ∷ [])
    × (map contents l.receiver.ready_for_delivery ≡ some (12 ∷ []) ∷ [])
unfolding link_run new_link gnatsd.Swp.Retree.put gnatsd.Swp.Retree.cut
session_read = (_, refl, refl, refl)

link_run-Transfers_example :
    (l : Link list_tree) × (link_run list_tree session (new_link list_tree keep_alive 2 100)
      ≡ some l)
    × Transfers list_tree l
link_run-Transfers_example =
    link_run-Transfers list_tree list_tree-IsRbtree keep_alive 2 100 session (omega arith)
