-- ===== src/Tests/Blank.antt =====
-- A memory of zeros, and what the start makes of it.
use os_unibo.Mikabooq.{Cpu, Mem}
use os_unibo.Boot.{boot}

abbrev pub zero_cpu : Cpu
zero_cpu = record { a1 = 0; a2 = 0; a3 = 0; a4 = 0; sp = 0; pc = 0; cpsr = 0; cp15_cause = 0 }

abbrev pub blank : Mem
blank = record {
  links = record { next = λ _. 0; prev = λ _. 0 };
  p_parent = λ _. 0;
  pgm_mgr = λ _. 0;
  tlb_mgr = λ _. 0;
  sys_mgr = λ _. 0;
  t_pcb = λ _. 0;
  t_s = λ _. zero_cpu;
  t_status = λ _. 0;
  run_time = λ _. 0;
  errno = λ _. 0;
  t_wait4sender = λ _. 0;
  m_sender = λ _. 0;
  m_value = λ _. 0;
}

abbrev pub booted : Mem
booted = boot blank
