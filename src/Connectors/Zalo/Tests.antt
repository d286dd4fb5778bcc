-- ===== src/Connectors/Zalo/Tests.antt =====
-- A customer's message to a tenant, whose forwarding loses the body of its answer.
use solodesk.Prelude.{inr, ℕ, [], ◌∷◌, refl}
use solodesk.Prelude.Action.{Action, Failure}
use solodesk.Prelude.Success.{Succeeds}
use solodesk.Messaging.{Mailbox}
use solodesk.Connectors.{uuid, absent, given, zalo, ZaloBody, wall_clock}
use solodesk.Connectors.Vault.{resolve}
use solodesk.Connectors.Resilience.{Link, body_lost, last}
use solodesk.Connectors.Zalo.{Drawn, Exchange, handle_zalo}
use solodesk.Connectors.Zalo.Guards.{ResolvesZalo, Reception, handle_zalo-Reception}
use solodesk.Connectors.Zalo.Forwarding.{Forwarded, handle_zalo-Forwarded}

abbrev status : Failure → ℕ
status e = 500

-- No retry.
abbrev execute : Action (Link Mailbox) (Unit {0}) → Action (Link Mailbox) (Unit {0})
execute fn = fn

abbrev drawn : Drawn
drawn = record { event = 11; message = 12; now = 99999999 }

abbrev hello : ZaloBody
hello = record {
  message_id = absent;
  ma_nguoi_dung = given 500;
  noi_dung = b' ' ∷ b'h' ∷ b'i' ∷ b' ' ∷ [];
  khach = b'A' ∷ [];
  luc = wall_clock 90000000;
}

abbrev shop : Exchange
shop = record {
  hub = record {
    credentials = [];
    tokens = record { token = 77; tenant = 7; provider = zalo } ∷ [];
    events = [];
  };
  link = record { backend = []; fates = body_lost ∷ [] };
}

handle_zalo-Reception_example :
    Reception status execute drawn
      (uuid 77)
      hello
      shop
      (handle_zalo status execute drawn (uuid 77) hello shop)
handle_zalo-Reception_example = handle_zalo-Reception status execute drawn (uuid 77) hello shop

shop-ResolvesZalo :
    ResolvesZalo (uuid 77) shop.hub (record { token = 77; tenant = 7; provider = zalo })
unfolding resolve
shop-ResolvesZalo = (77, refl, refl, refl)

handle_zalo-Forwarded_example :
    Succeeds (Forwarded 7 500) (handle_zalo status execute drawn (uuid 77) hello shop)
handle_zalo-Forwarded_example =
    handle_zalo-Forwarded status execute (λ fn l. last refl) drawn (uuid 77) hello shop
      (record { token = 77; tenant = 7; provider = zalo }) 500 shop-ResolvesZalo (inr (refl, refl))
      refl
