-- ===== src/Pool/Ownership/Kept.antt =====
-- The holdings of a pool stay exclusive under what the critical sections do to them:
-- conn_pool.go, conn_pool_put.go.
use memsql_conn_pool.Base.{
  ℕ, ◌<◌, ◌≡◌, Bool, true, false, Option, none, some, List, ◌∷◌, count, delete, arith, refl, sym,
  subst, count-delete,
}
use memsql_conn_pool.Pool.Ownership.{
  Holdings, IsExclusive, asks, cancels, receives, uses, takes, makes, responds, saves, Placed,
  Reported, conn_of, IsLoose, IsGiven, Fewer, left, served, saved, told, unheard, hold,
}
use memsql_conn_pool.Runtime.{ConnCreationResponse}

pub asks-IsExclusive :
    (key : ℕ) (h : Holdings) (held : List ℕ) → IsExclusive h held → IsExclusive (asks key h) held
asks-IsExclusive key h held x = record {
  placed_once = x.placed_once;
  sent_alone = λ c k e. ground (arith, x.sent_alone c k);
  sent_once = λ c k k' e e'. ground (arith, x.sent_once c k k');
  placed_known = x.placed_known;
  sent_known = λ c k e. ground (arith, x.sent_known c k);
  waits_once = λ k. ground (arith, x.waits_once k, count-delete k key h.requests);
  waits_empty = λ k e. ground (arith, x.waits_empty k, count-delete k key h.requests);
  idle_unused = x.idle_unused;
  held_used = x.held_used;
  sent_used = λ c k e. ground (arith, x.sent_used c k);
}

pub cancels-IsExclusive :
    (key : ℕ) (h : Holdings) (held : List ℕ) → IsExclusive h held → IsExclusive (cancels key h) held
cancels-IsExclusive key h held x = record {
  placed_once = x.placed_once;
  sent_alone = x.sent_alone;
  sent_once = x.sent_once;
  placed_known = x.placed_known;
  sent_known = x.sent_known;
  waits_once = λ k. ground (arith, x.waits_once k, count-delete k key h.requests);
  waits_empty = λ k e. ground (arith, x.waits_empty k, count-delete k key h.requests);
  idle_unused = x.idle_unused;
  held_used = x.held_used;
  sent_used = x.sent_used;
}

pub empties-IsExclusive :
    (key : ℕ) (h : Holdings) (held : List ℕ)
    → IsExclusive h held
    → IsExclusive (receives key h) held
empties-IsExclusive key h held x = record {
  placed_once = x.placed_once;
  sent_alone = λ c k e. ground (arith, x.sent_alone c k);
  sent_once = λ c k k' e e'. ground (arith, x.sent_once c k k');
  placed_known = x.placed_known;
  sent_known = λ c k e. ground (arith, x.sent_known c k);
  waits_once = x.waits_once;
  waits_empty = λ k e. ground (arith, x.waits_empty k);
  idle_unused = x.idle_unused;
  held_used = x.held_used;
  sent_used = λ c k e. ground (arith, x.sent_used c k);
}

pub receives-IsExclusive :
    (key dc : ℕ) (h : Holdings) (held : List ℕ)
    → IsExclusive h held
    → conn_of (h.sent key) ≡ some dc
    → IsExclusive (receives key h) (dc ∷ held)
receives-IsExclusive key dc h held x got = record {
  placed_once = λ c.
      ground (arith, x.placed_once c, x.sent_alone dc key, x.sent_known dc key, x.sent_used dc key);
  sent_alone = λ c k e. ground (
    arith,
    x.sent_alone c k,
    x.sent_alone dc key,
    x.sent_once dc k key,
    x.sent_known dc key,
    x.sent_used dc key,
  );
  sent_once = λ c k k' e e'. ground (
    arith,
    x.sent_once c k k',
    x.sent_alone dc key,
    x.sent_once dc k key,
    x.sent_known dc key,
    x.sent_used dc key,
  );
  placed_known = λ c b.
      ground
        (arith, x.placed_known c, x.sent_alone dc key, x.sent_known dc key, x.sent_used dc key);
  sent_known = λ c k e.
      ground
        (arith, x.sent_known c k, x.sent_alone dc key, x.sent_known dc key, x.sent_used dc key);
  waits_once = x.waits_once;
  waits_empty = λ k e.
      ground (arith, x.waits_empty k, x.sent_alone dc key, x.sent_known dc key, x.sent_used dc key);
  idle_unused = x.idle_unused;
  held_used = λ c e.
      ground (arith, x.held_used c, x.sent_alone dc key, x.sent_known dc key, x.sent_used dc key);
  sent_used = λ c k e.
      ground (arith, x.sent_used c k, x.sent_alone dc key, x.sent_known dc key, x.sent_used dc key);
}

pub responds-IsExclusive :
    (key : ℕ) (r : ConnCreationResponse) (h : Holdings) (held : List ℕ)
    → IsExclusive h held
    → ((c : ℕ) → r.conn ≡ some c → IsGiven c h held)
    → IsExclusive (responds key r h) held
responds-IsExclusive key r h held x given = record {
  placed_once = x.placed_once;
  sent_alone = λ c k e. ground (arith, x.sent_alone c k, given c);
  sent_once = λ c k k' e e'. ground (
    arith,
    x.sent_once c k k',
    λ (g : r.conn ≡ some c). (given c g).unsent k,
    λ (g : r.conn ≡ some c). (given c g).unsent k',
  );
  placed_known = x.placed_known;
  sent_known = λ c k e. ground (arith, x.sent_known c k, given c);
  waits_once = λ k. ground (arith, x.waits_once k, count-delete k key h.requests);
  waits_empty = λ k e. ground (arith, x.waits_empty k, count-delete k key h.requests);
  idle_unused = x.idle_unused;
  held_used = x.held_used;
  sent_used = λ c k e. ground (arith, x.sent_used c k, given c);
}

pub takes-IsExclusive :
    (dc : ℕ) (h : Holdings) (held : List ℕ)
    → IsExclusive h held
    → 0 < count dc h.idle
    → IsExclusive (takes dc h) (dc ∷ held)
takes-IsExclusive dc h held x free = record {
  placed_once = λ c.
      ground
        (arith, x.placed_once c, count-delete c dc h.idle, x.placed_once dc, x.placed_known dc);
  sent_alone = λ c k e.
      ground
        (arith, x.sent_alone c k, count-delete c dc h.idle, x.placed_once dc, x.placed_known dc);
  sent_once = x.sent_once;
  placed_known = λ c b.
      ground
        (arith, x.placed_known c, count-delete c dc h.idle, x.placed_once dc, x.placed_known dc);
  sent_known = x.sent_known;
  waits_once = x.waits_once;
  waits_empty = x.waits_empty;
  idle_unused = λ c e.
      ground
        (arith, x.idle_unused c, count-delete c dc h.idle, x.placed_once dc, x.placed_known dc);
  held_used = λ c e.
      ground (arith, x.held_used c, count-delete c dc h.idle, x.placed_once dc, x.placed_known dc);
  sent_used = λ c k e. ground (arith, x.sent_used c k);
}

pub makes-IsExclusive_held :
    (h : Holdings) (held : List ℕ) → IsExclusive h held → IsExclusive (makes true h) (h.next ∷ held)
makes-IsExclusive_held h held x = record {
  placed_once = λ c. ground (arith, x.placed_once c, x.placed_known h.next);
  sent_alone = λ c k e. ground (arith, x.sent_alone c k, x.sent_known c k);
  sent_once = x.sent_once;
  placed_known = λ c b. ground (arith, x.placed_known c);
  sent_known = λ c k e. ground (arith, x.sent_known c k);
  waits_once = x.waits_once;
  waits_empty = x.waits_empty;
  idle_unused = λ c e. ground (arith, x.idle_unused c, x.placed_known c);
  held_used = λ c e. ground (arith, x.held_used c, x.placed_known c);
  sent_used = λ c k e. ground (arith, x.sent_used c k);
}

pub makes-IsExclusive :
    (h : Holdings) (held : List ℕ) → IsExclusive h held → IsExclusive (makes false h) held
makes-IsExclusive h held x = record {
  placed_once = x.placed_once;
  sent_alone = x.sent_alone;
  sent_once = x.sent_once;
  placed_known = λ c b. ground (arith, x.placed_known c);
  sent_known = λ c k e. ground (arith, x.sent_known c k);
  waits_once = x.waits_once;
  waits_empty = x.waits_empty;
  idle_unused = λ c e. ground (arith, x.idle_unused c, x.placed_known c);
  held_used = λ c e. ground (arith, x.held_used c, x.placed_known c);
  sent_used = λ c k e. ground (arith, x.sent_used c k, x.sent_known c k);
}

pub drops-IsExclusive :
    (dc : ℕ) (h : Holdings) (held : List ℕ) → IsExclusive h held → IsExclusive h (delete dc held)
drops-IsExclusive dc h held x = record {
  placed_once = λ c. ground (arith, x.placed_once c, count-delete c dc held);
  sent_alone = λ c k e. ground (arith, x.sent_alone c k, count-delete c dc held);
  sent_once = x.sent_once;
  placed_known = λ c b. ground (arith, x.placed_known c, count-delete c dc held);
  sent_known = x.sent_known;
  waits_once = x.waits_once;
  waits_empty = x.waits_empty;
  idle_unused = x.idle_unused;
  held_used = λ c e. ground (arith, x.held_used c, count-delete c dc held);
  sent_used = x.sent_used;
}

pub uses-IsExclusive :
    (dc : ℕ) (b : Bool) (h : Holdings) (held : List ℕ)
    → IsExclusive h held
    → IsLoose dc h held
    → IsExclusive (uses dc b h) held
uses-IsExclusive dc b h held x loose = record {
  placed_once = x.placed_once;
  sent_alone = x.sent_alone;
  sent_once = x.sent_once;
  placed_known = x.placed_known;
  sent_known = x.sent_known;
  waits_once = x.waits_once;
  waits_empty = x.waits_empty;
  idle_unused = λ c e. ground (arith, x.idle_unused c, loose.nowhere);
  held_used = λ c e. ground (arith, x.held_used c, loose.nowhere);
  sent_used = λ c k e. ground (arith, x.sent_used c k, loose.nowhere, loose.unsent k);
}

pub saves-IsExclusive :
    (dc : ℕ) (h : Holdings) (held : List ℕ)
    → IsExclusive h held
    → IsLoose dc h held
    → IsExclusive (saves dc h) held
saves-IsExclusive dc h held x loose = record {
  placed_once = λ c. ground (arith, x.placed_once c, loose.nowhere, loose.known, loose.unused);
  sent_alone = λ c k e.
      ground (arith, x.sent_alone c k, loose.nowhere, loose.known, loose.unused, loose.unsent k);
  sent_once = x.sent_once;
  placed_known = λ c b. ground (arith, x.placed_known c, loose.nowhere, loose.known, loose.unused);
  sent_known = x.sent_known;
  waits_once = x.waits_once;
  waits_empty = x.waits_empty;
  idle_unused = λ c e. ground (arith, x.idle_unused c, loose.nowhere, loose.known, loose.unused);
  held_used = x.held_used;
  sent_used = x.sent_used;
}

-- What is nowhere in the holdings is loose once its `inUse` is false.
pub uses-IsLoose :
    (dc : ℕ) (h : Holdings) (held : List ℕ)
    → IsExclusive h held
    → 0 < count dc held
    → IsLoose dc (uses dc false h) (delete dc held)
uses-IsLoose dc h held x has = record {
  nowhere = ground (arith, x.placed_once dc, count-delete dc dc held);
  unsent = λ k e. omega (arith, x.sent_alone dc k e);
  known = ground (arith, x.placed_known dc);
  unused = ground arith;
}

pub makes-IsLoose :
    (h : Holdings) (held : List ℕ) → IsExclusive h held → IsLoose h.next (makes false h) held
makes-IsLoose h held x = record {
  nowhere = x.placed_known h.next (omega arith);
  unsent = λ k e. omega (arith, x.sent_known h.next k e);
  known = omega arith;
  unused = ground arith;
}

pub returns-IsExclusive :
    (dc : ℕ) (h : Holdings) (held : List ℕ)
    → IsExclusive h held
    → 0 < count dc held
    → IsExclusive (uses dc false h) (delete dc held)
returns-IsExclusive dc h held x has = record {
  placed_once = λ c. ground (arith, x.placed_once c, count-delete c dc held);
  sent_alone = λ c k e. ground (arith, x.sent_alone c k, count-delete c dc held);
  sent_once = x.sent_once;
  placed_known = λ c b. ground (arith, x.placed_known c, count-delete c dc held);
  sent_known = x.sent_known;
  waits_once = x.waits_once;
  waits_empty = x.waits_empty;
  idle_unused = λ c e. ground (arith, x.idle_unused c);
  held_used = λ c e. ground (arith, x.held_used c, count-delete c dc held);
  sent_used = λ c k e. ground (arith, x.sent_used c k, x.sent_alone c k);
}

pub Fewer-IsExclusive :
    (h h' : Holdings) (held : List ℕ) → Fewer h h' → IsExclusive h held → IsExclusive h' held
Fewer-IsExclusive h h' held f x =
    subst (λ v. IsExclusive v held) (sym f.rest)
      (record {
        placed_once = λ c. omega (arith, x.placed_once c, f.fewer c);
        sent_alone = λ c k e. omega (arith, x.sent_alone c k e, f.fewer c);
        sent_once = x.sent_once;
        placed_known = λ c b. omega (arith, x.placed_known c b, f.fewer c);
        sent_known = x.sent_known;
        waits_once = x.waits_once;
        waits_empty = x.waits_empty;
        idle_unused = λ c e. x.idle_unused c (omega (arith, f.fewer c));
        held_used = x.held_used;
        sent_used = x.sent_used;
      })

pub Placed-IsExclusive :
    (dc : ℕ) (h h' : Holdings) (held : List ℕ)
    → Placed dc h h'
    → IsExclusive h held
    → IsLoose dc h held
    → IsExclusive h' held
Placed-IsExclusive dc h h' held (left e) x loose = rw e x
Placed-IsExclusive dc h h' held (saved e) x loose = rw e (saves-IsExclusive dc h held x loose)
Placed-IsExclusive dc h h' held (served key waits e) x loose = rw e (
    responds-IsExclusive key (record { conn = some dc; err = none }) (uses dc true h) held
      (uses-IsExclusive dc true h held x loose) λ c g. given c (ground arith))
  where
    given : (c : ℕ) → dc ≡ c → IsGiven c (uses dc true h) held
    given c same =
        subst (λ c'. IsGiven c' (uses dc true h) held) same
          (record {
            nowhere = loose.nowhere;
            unsent = loose.unsent;
            known = loose.known;
            used_now = ground arith;
          })

pub Reported-IsExclusive :
    (h h' : Holdings) (held : List ℕ) → Reported h h' → IsExclusive h held → IsExclusive h' held
Reported-IsExclusive h h' held (unheard e) x = rw e x
Reported-IsExclusive h h' held (told key err waits e) x = rw e (
    responds-IsExclusive key (record { conn = none; err = some err }) h held x
      (λ c g. absurd (ground arith)))

pub hold-IsExclusive :
    (key : ℕ) (r : ConnCreationResponse) (h : Holdings) (held : List ℕ)
    → IsExclusive h held
    → h.sent key ≡ some r
    → IsExclusive (receives key h) (hold r.conn held)
hold-IsExclusive key r h held x got = go r.conn refl
  where
    go : (c : Option ℕ) → r.conn ≡ c → IsExclusive (receives key h) (hold c held)
    go none e = empties-IsExclusive key h held x
    go (some c) e = receives-IsExclusive key c h held x (rw (got, e) refl)
