-- ===== src/Arch/Gothmog.antt =====
-- src/arch/mir_arch_gothmog.c: 48 cores on 8 nodes.
use mir_dev.Base.{
  leb, ◌==◌, if◌then◌else◌, ℕ, ◌+◌, ◌%◌, not, ◌||◌, Option, none, some, List, [], ◌∷◌,
}
use mir_dev.Arch.{Arch, Topology, row, look_up}

abbrev topology : List Topology
topology =
    row 0 0 0 0 0
    ∷ row 1 1 1 0 0
    ∷ row 2 2 2 0 0
    ∷ row 3 3 3 0 0
    ∷ row 4 4 4 0 0
    ∷ row 5 5 5 0 0
    ∷ row 6 6 6 0 1
    ∷ row 7 7 7 0 1
    ∷ row 8 8 8 0 1
    ∷ row 9 9 9 0 1
    ∷ row 10 10 10 0 1
    ∷ row 11 11 11 0 1
    ∷ row 12 12 12 1 2
    ∷ row 13 13 13 1 2
    ∷ row 14 14 14 1 2
    ∷ row 15 15 15 1 2
    ∷ row 16 16 16 1 2
    ∷ row 17 17 17 1 2
    ∷ row 18 18 18 1 3
    ∷ row 19 19 19 1 3
    ∷ row 20 20 20 1 3
    ∷ row 21 21 21 1 3
    ∷ row 22 22 22 1 3
    ∷ row 23 23 23 1 3
    ∷ row 24 24 24 2 4
    ∷ row 25 25 25 2 4
    ∷ row 26 26 26 2 4
    ∷ row 27 27 27 2 4
    ∷ row 28 28 28 2 4
    ∷ row 29 29 29 2 4
    ∷ row 30 30 30 2 5
    ∷ row 31 31 31 2 5
    ∷ row 32 32 32 2 5
    ∷ row 33 33 33 2 5
    ∷ row 34 34 34 2 5
    ∷ row 35 35 35 2 5
    ∷ row 36 36 36 3 6
    ∷ row 37 37 37 3 6
    ∷ row 38 38 38 3 6
    ∷ row 39 39 39 3 6
    ∷ row 40 40 40 3 6
    ∷ row 41 41 41 3 6
    ∷ row 42 42 42 3 7
    ∷ row 43 43 43 3 7
    ∷ row 44 44 44 3 7
    ∷ row 45 45 45 3 7
    ∷ row 46 46 46 3 7
    ∷ row 47 47 47 3 7
    ∷ []

unfoldable pub sys_cpu_of : ℕ → Option ℕ
sys_cpu_of cpuid = look_up topology cpuid cpuid

unfoldable pub node_of : ℕ → Option ℕ
node_of cpuid =
    if leb cpuid 5
    then some 0
    else if leb cpuid 11
    then some 1
    else if leb cpuid 17
    then some 2
    else if leb cpuid 23
    then some 3
    else if leb cpuid 29
    then some 4
    else if leb cpuid 35
    then some 5
    else if leb cpuid 41
    then some 6
    else if leb cpuid 47
    then some 7
    else none

-- `for (int i = 0, basecpu = …; i < 6; i++) cpuids->buf[i] = basecpu + i;`
abbrev pub six_from : ℕ → List ℕ
six_from b = b ∷ (b + 1) ∷ (b + 2) ∷ (b + 3) ∷ (b + 4) ∷ (b + 5) ∷ []

unfoldable pub cpus_of : ℕ → Option (List ℕ)
cpus_of nodeid =
    if nodeid == 0
    then some (six_from 0)
    else if nodeid == 1
    then some (six_from 6)
    else if nodeid == 2
    then some (six_from 12)
    else if nodeid == 3
    then some (six_from 18)
    else if nodeid == 4
    then some (six_from 24)
    else if nodeid == 5
    then some (six_from 30)
    else if nodeid == 6
    then some (six_from 36)
    else if nodeid == 7
    then some (six_from 42)
    else none

unfoldable pub near_one : ℕ → List ℕ
near_one nodeid =
    if nodeid == 0
    then 1 ∷ []
    else if nodeid == 1
    then 0 ∷ []
    else if nodeid == 2
    then 3 ∷ []
    else if nodeid == 3
    then 2 ∷ []
    else if nodeid == 4
    then 5 ∷ []
    else if nodeid == 5
    then 4 ∷ []
    else if nodeid == 6
    then 7 ∷ []
    else if nodeid == 7
    then 6 ∷ []
    else []

-- The case of node 4 has no `break`, so it runs on into that of node 6.
unfoldable pub near_two : ℕ → List ℕ
near_two nodeid =
    if nodeid == 0
    then 2 ∷ 4 ∷ 6 ∷ []
    else if nodeid == 2
    then 0 ∷ 4 ∷ 6 ∷ []
    else if nodeid == 4
    then 0 ∷ 2 ∷ 4 ∷ []
    else if nodeid == 6
    then 0 ∷ 2 ∷ 4 ∷ []
    else if nodeid == 1
    then 3 ∷ 5 ∷ 7 ∷ []
    else if nodeid == 3
    then 1 ∷ 5 ∷ 7 ∷ []
    else if nodeid == 5
    then 1 ∷ 3 ∷ 7 ∷ []
    else if nodeid == 7
    then 1 ∷ 3 ∷ 5 ∷ []
    else []

unfoldable pub near_three : ℕ → List ℕ
near_three nodeid =
    if nodeid == 0 || nodeid == 2 || nodeid == 4 || nodeid == 6
    then 1 ∷ 3 ∷ 5 ∷ 7 ∷ []
    else if nodeid == 1 || nodeid == 3 || nodeid == 5 || nodeid == 7
    then 0 ∷ 2 ∷ 4 ∷ 6 ∷ []
    else []

unfoldable pub vicinity_of : ℕ → ℕ → List ℕ
vicinity_of nodeid diameter =
    if diameter == 1
    then near_one nodeid
    else if diameter == 2
    then near_two nodeid
    else if diameter == 3
    then near_three nodeid
    else []

unfoldable pub comm_cost_of : ℕ → ℕ → ℕ
comm_cost_of from_nodeid to_nodeid =
    if from_nodeid == to_nodeid
    then 10
    else if not (from_nodeid % 2 == to_nodeid % 2)
    then 22
    else 16

abbrev pub gothmog : Arch
gothmog = record {
  num_cores = 48;
  num_nodes = 8;
  diameter = 3;
  llc_size_kb = 5000;
  sys_cpu_of = sys_cpu_of;
  node_of = node_of;
  cpus_of = cpus_of;
  vicinity_of = vicinity_of;
  comm_cost_of = comm_cost_of;
}
