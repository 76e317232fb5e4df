-- ===== src/PerfSim/Names.antt =====
-- `getRegName` and `getInstrName` of src/PerfSim.cpp: the names that the trace prints.
use perf_sim.Base.{[], ◌==◌, if◌then◌else◌}
use perf_sim.Base.Text.{Text, codes}
use perf_sim.Types.{InstrName, RegName}

-- A number that is no enumerator leaves the string empty.
unfoldable pub get_reg_name : RegName → Text
get_reg_name name =
    if name == 0
    then codes "zero"
    else if name == 1
    then codes "ra"
    else if name == 2
    then codes "sp"
    else if name == 3
    then codes "gp"
    else if name == 4
    then codes "tp"
    else if name == 5
    then codes "t0"
    else if name == 6
    then codes "t1"
    else if name == 7
    then codes "t2"
    else if name == 8
    then codes "s0"
    else if name == 9
    then codes "s1"
    else if name == 10
    then codes "a0"
    else if name == 11
    then codes "a1"
    else if name == 12
    then codes "a2"
    else if name == 13
    then codes "a3"
    else if name == 14
    then codes "a4"
    else if name == 15
    then codes "a5"
    else if name == 16
    then codes "a6"
    else if name == 17
    then codes "a7"
    else if name == 18
    then codes "s2"
    else if name == 19
    then codes "s3"
    else if name == 20
    then codes "s4"
    else if name == 21
    then codes "s5"
    else if name == 22
    then codes "s6"
    else if name == 23
    then codes "s7"
    else if name == 24
    then codes "s8"
    else if name == 25
    then codes "s9"
    else if name == 26
    then codes "s10"
    else if name == 27
    then codes "s11"
    else if name == 28
    then codes "t3"
    else if name == 29
    then codes "t4"
    else if name == 30
    then codes "t5"
    else if name == 31
    then codes "t6"
    else if name == 32
    then codes "none"
    else []

unfoldable pub get_instr_name : InstrName → Text
get_instr_name InstrName.lui = codes "LUI"
get_instr_name InstrName.auipc = codes "AUIPC"
get_instr_name InstrName.jal = codes "JAL"
get_instr_name InstrName.jalr = codes "JALR"
get_instr_name InstrName.beq = codes "BEQ"
get_instr_name InstrName.bne = codes "BNE"
get_instr_name InstrName.blt = codes "BLT"
get_instr_name InstrName.bge = codes "BGE"
get_instr_name InstrName.bltu = codes "BLTU"
get_instr_name InstrName.bgeu = codes "BGEU"
get_instr_name InstrName.lb = codes "LB"
get_instr_name InstrName.lh = codes "LH"
get_instr_name InstrName.lw = codes "LW"
get_instr_name InstrName.lbu = codes "LBU"
get_instr_name InstrName.lhu = codes "LHU"
get_instr_name InstrName.sb = codes "SB"
get_instr_name InstrName.sh = codes "SH"
get_instr_name InstrName.sw = codes "SW"
get_instr_name InstrName.addi = codes "ADDI"
get_instr_name InstrName.slti = codes "SLTI"
get_instr_name InstrName.sltiu = codes "SLTIU"
get_instr_name InstrName.xori = codes "XORI"
get_instr_name InstrName.ori = codes "ORI"
get_instr_name InstrName.andi = codes "ANDI"
get_instr_name InstrName.slli = codes "SLLI"
get_instr_name InstrName.srli = codes "SRLI"
get_instr_name InstrName.srai = codes "SRAI"
get_instr_name InstrName.add = codes "ADD"
get_instr_name InstrName.sub = codes "SUB"
get_instr_name InstrName.sll = codes "SLL"
get_instr_name InstrName.slt = codes "SLT"
get_instr_name InstrName.sltu = codes "SLTU"
get_instr_name InstrName.xor = codes "XOR"
get_instr_name InstrName.srl = codes "SRL"
get_instr_name InstrName.sra = codes "SRA"
get_instr_name InstrName.or = codes "OR"
get_instr_name InstrName.and = codes "AND"
get_instr_name InstrName.fence = codes "FENCE"
get_instr_name InstrName.fence_i = codes "FENCE_I"
get_instr_name InstrName.ecall = codes "ECALL"
get_instr_name InstrName.ebreak = codes "EBREAK"
get_instr_name InstrName.csrrw = codes "CSRRW"
get_instr_name InstrName.csrrs = codes "CSRRS"
get_instr_name InstrName.csrrc = codes "CSRRC"
get_instr_name InstrName.csrrwi = codes "CSRRWI"
get_instr_name InstrName.csrrsi = codes "CSRRSI"
get_instr_name InstrName.csrrci = codes "CSRRCI"
get_instr_name InstrName.no_name = codes "NONE"
