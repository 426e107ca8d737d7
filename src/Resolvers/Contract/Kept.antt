-- ===== src/Resolvers/Contract/Kept.antt =====
-- Both resolvers keep the contract.
use lm_transport.Base.{ℕ}
use lm_transport.Resolvers.Contract.{Runs, Keeps, Runs-Keeps}
use lm_transport.Resolvers.Contract.Blocking.{blocking_contract}
use lm_transport.Resolvers.Contract.Asyncns.{asyncns_contract}
use lm_transport.Blocking.{System, BlockingResolver}
use lm_transport.AsyncnsResolver.{Asyncns, AsyncnsResolver}
use lm_transport.AsyncnsResolver.Queries.{Accepting}

-- Both resolvers implement one abstract resolver, the asynchronous one with a library that refuses no
-- query and whose responses for a service, unless empty, name a server. After any lookups made one at a time, and callbacks and cancellations at any moment: the
-- next callback returns; what was reported is a history of the abstract resolver, in which an answer
-- comes only while a lookup is under way and ends it, and a cancellation ends it likewise; and no
-- lookup was answered twice, nor one that is under way.
pub resolvers-Keeps :
    (y : System) (a : Asyncns) (accepting : Accepting a) {n m : ℕ} {s : BlockingResolver}
    {t : AsyncnsResolver}
    → Runs (blocking_contract y) n s
    → Runs (asyncns_contract a accepting) m t
    → Keeps (blocking_contract y) n s × Keeps (asyncns_contract a accepting) m t
resolvers-Keeps y a accepting r q =
    (Runs-Keeps (blocking_contract y) r, Runs-Keeps (asyncns_contract a accepting) q)
