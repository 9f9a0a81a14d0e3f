-- ===== src/Tunnel/WaitGroup/Examples.antt =====
-- The theorems about the wait group at its first uses.
use chisel_uds.Prelude.{refl, arith}
use chisel_uds.Tunnel.WaitGroup.{WaitGroup, new_group, add_n, swap, Reach, here, later}

abbrev adding : WaitGroup
adding = record new_group { n = 1; adding = 1 }

abbrev taken : WaitGroup
taken = record new_group { adding = 1; finishing = 1 }

taken-Reach : Reach new_group taken
taken-Reach = later (later here (add_n refl (omega arith))) (swap refl refl)
