-- ===== src/System.antt =====
-- The back end as a whole: requests come in through the controllers, messages of bet_placement reach
-- the settlement worker, and the replica catches up, in any order. Requests that run at the same
-- time are taken one after the other here; Wallet/Interleaving is about what that leaves out.
pub mod Writes
pub mod Operations
pub mod Books
pub mod Accounts
use bolt_bet.Base.{List, [], ◌∷◌}
use bolt_bet.Crypto.{Crypto, Config}
use bolt_bet.Model.Entities.{BetPlacementPayload, World}
use bolt_bet.Model.Action.{Env}
use bolt_bet.Settlement.{Delivery, handle_message}
use bolt_bet.Validation.{Packages}
use bolt_bet.Controllers.{Request, serve}

pub data Event : Type 0 where
  requested : Request → Event
  delivered : Delivery → Event
  replicated : Event

-- The replica has caught up with the primary.
abbrev pub replicate : World → World
replicate w = record w {
  replica = record { wallets = w.wallets; transactions = w.transactions; bets = w.bets };
}

module _ (packages : Packages) (crypto : Crypto) (config : Config) where
  abbrev pub happen : Event → World → World
  happen (requested r) w = (serve packages crypto config r w).1
  happen (delivered d) w = (handle_message d.env d.env' d.payload w).1
  happen replicated w = replicate w

  abbrev pub run : List Event → World → World
  run [] w = w
  run (e ∷ es) w = run es (happen e w)
