-- ===== src/Boot/Sound.antt =====
-- The tables as the start leaves them are sound: the root is the only process in use.
use os_unibo.Base.{inl, refl, [], ◌∷◌, arith}
use os_unibo.Mikabooq.{Mem}
use os_unibo.Mikabooq.Layout.{root}
use os_unibo.Boot.{boot}
use os_unibo.Boot.Valid.{boot_heads, boot_queues, boot-Valid, ownerless, parentless, managerless}
use os_unibo.Boot.Loose.{sched-IsLoose}
use os_unibo.Ssi.Settled.{Settled}
use os_unibo.Ssi.Sound.{Sound}

module _ (m : Mem) where
  pub boot-Settled : Settled boot_heads boot_queues (boot m)
  boot-Settled = record {
    placed = λ t it used. absurd (used (ownerless m t it));
    waits = λ t a it used i. absurd (used (ownerless m t it));
    idle = λ t it unused.
        sched-IsLoose t
          (record { aligned = it.aligned; from = it.from; below = omega (arith, it) });
    runnable = λ t it used. absurd (used (ownerless m t it));
    mgrs = λ p ip. inl (managerless m p ip);
  }

  pub boot-Sound : Sound boot_heads (boot m)
  boot-Sound = record {
    q = boot_queues;
    valid = boot-Valid m;
    settled = boot-Settled;
    order = root ∷ [];
    distinct = (refl, tt);
    procs = λ p i. ground arith;
    listed = λ p ip live. ground (arith, live, parentless m p ip);
    ranked = λ c ic has_parent. absurd (has_parent (parentless m c ic));
  }
