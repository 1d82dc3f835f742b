-- ===== src/Paging/EntryTable/Low.antt =====
-- kern/entrypgdir.c: the frame addresses of `entry_pgtable`, entries 0 to 511, in the order of the
-- source, which gives each the flags PTE_P and PTE_W.
use tp_prom.Prelude.{ℕ, List, [], ◌∷◌}

unfoldable pub entries_0 : List ℕ
entries_0 =
    0x000000 ∷ 0x001000 ∷ 0x002000 ∷ 0x003000 ∷ 0x004000 ∷ 0x005000 ∷ 0x006000 ∷ 0x007000 ∷ 0x008000
    ∷ 0x009000 ∷ 0x00a000 ∷ 0x00b000 ∷ 0x00c000 ∷ 0x00d000 ∷ 0x00e000 ∷ 0x00f000 ∷ 0x010000
    ∷ 0x011000 ∷ 0x012000 ∷ 0x013000 ∷ 0x014000 ∷ 0x015000 ∷ 0x016000 ∷ 0x017000 ∷ 0x018000
    ∷ 0x019000 ∷ 0x01a000 ∷ 0x01b000 ∷ 0x01c000 ∷ 0x01d000 ∷ 0x01e000 ∷ 0x01f000 ∷ 0x020000
    ∷ 0x021000 ∷ 0x022000 ∷ 0x023000 ∷ 0x024000 ∷ 0x025000 ∷ 0x026000 ∷ 0x027000 ∷ 0x028000
    ∷ 0x029000 ∷ 0x02a000 ∷ 0x02b000 ∷ 0x02c000 ∷ 0x02d000 ∷ 0x02e000 ∷ 0x02f000 ∷ 0x030000
    ∷ 0x031000 ∷ 0x032000 ∷ 0x033000 ∷ 0x034000 ∷ 0x035000 ∷ 0x036000 ∷ 0x037000 ∷ 0x038000
    ∷ 0x039000 ∷ 0x03a000 ∷ 0x03b000 ∷ 0x03c000 ∷ 0x03d000 ∷ 0x03e000 ∷ 0x03f000 ∷ 0x040000
    ∷ 0x041000 ∷ 0x042000 ∷ 0x043000 ∷ 0x044000 ∷ 0x045000 ∷ 0x046000 ∷ 0x047000 ∷ 0x048000
    ∷ 0x049000 ∷ 0x04a000 ∷ 0x04b000 ∷ 0x04c000 ∷ 0x04d000 ∷ 0x04e000 ∷ 0x04f000 ∷ 0x050000
    ∷ 0x051000 ∷ 0x052000 ∷ 0x053000 ∷ 0x054000 ∷ 0x055000 ∷ 0x056000 ∷ 0x057000 ∷ 0x058000
    ∷ 0x059000 ∷ 0x05a000 ∷ 0x05b000 ∷ 0x05c000 ∷ 0x05d000 ∷ 0x05e000 ∷ 0x05f000 ∷ 0x060000
    ∷ 0x061000 ∷ 0x062000 ∷ 0x063000 ∷ 0x064000 ∷ 0x065000 ∷ 0x066000 ∷ 0x067000 ∷ 0x068000
    ∷ 0x069000 ∷ 0x06a000 ∷ 0x06b000 ∷ 0x06c000 ∷ 0x06d000 ∷ 0x06e000 ∷ 0x06f000 ∷ 0x070000
    ∷ 0x071000 ∷ 0x072000 ∷ 0x073000 ∷ 0x074000 ∷ 0x075000 ∷ 0x076000 ∷ 0x077000 ∷ 0x078000
    ∷ 0x079000 ∷ 0x07a000 ∷ 0x07b000 ∷ 0x07c000 ∷ 0x07d000 ∷ 0x07e000 ∷ 0x07f000 ∷ []

unfoldable pub entries_1 : List ℕ
entries_1 =
    0x080000 ∷ 0x081000 ∷ 0x082000 ∷ 0x083000 ∷ 0x084000 ∷ 0x085000 ∷ 0x086000 ∷ 0x087000 ∷ 0x088000
    ∷ 0x089000 ∷ 0x08a000 ∷ 0x08b000 ∷ 0x08c000 ∷ 0x08d000 ∷ 0x08e000 ∷ 0x08f000 ∷ 0x090000
    ∷ 0x091000 ∷ 0x092000 ∷ 0x093000 ∷ 0x094000 ∷ 0x095000 ∷ 0x096000 ∷ 0x097000 ∷ 0x098000
    ∷ 0x099000 ∷ 0x09a000 ∷ 0x09b000 ∷ 0x09c000 ∷ 0x09d000 ∷ 0x09e000 ∷ 0x09f000 ∷ 0x0a0000
    ∷ 0x0a1000 ∷ 0x0a2000 ∷ 0x0a3000 ∷ 0x0a4000 ∷ 0x0a5000 ∷ 0x0a6000 ∷ 0x0a7000 ∷ 0x0a8000
    ∷ 0x0a9000 ∷ 0x0aa000 ∷ 0x0ab000 ∷ 0x0ac000 ∷ 0x0ad000 ∷ 0x0ae000 ∷ 0x0af000 ∷ 0x0b0000
    ∷ 0x0b1000 ∷ 0x0b2000 ∷ 0x0b3000 ∷ 0x0b4000 ∷ 0x0b5000 ∷ 0x0b6000 ∷ 0x0b7000 ∷ 0x0b8000
    ∷ 0x0b9000 ∷ 0x0ba000 ∷ 0x0bb000 ∷ 0x0bc000 ∷ 0x0bd000 ∷ 0x0be000 ∷ 0x0bf000 ∷ 0x0c0000
    ∷ 0x0c1000 ∷ 0x0c2000 ∷ 0x0c3000 ∷ 0x0c4000 ∷ 0x0c5000 ∷ 0x0c6000 ∷ 0x0c7000 ∷ 0x0c8000
    ∷ 0x0c9000 ∷ 0x0ca000 ∷ 0x0cb000 ∷ 0x0cc000 ∷ 0x0cd000 ∷ 0x0ce000 ∷ 0x0cf000 ∷ 0x0d0000
    ∷ 0x0d1000 ∷ 0x0d2000 ∷ 0x0d3000 ∷ 0x0d4000 ∷ 0x0d5000 ∷ 0x0d6000 ∷ 0x0d7000 ∷ 0x0d8000
    ∷ 0x0d9000 ∷ 0x0da000 ∷ 0x0db000 ∷ 0x0dc000 ∷ 0x0dd000 ∷ 0x0de000 ∷ 0x0df000 ∷ 0x0e0000
    ∷ 0x0e1000 ∷ 0x0e2000 ∷ 0x0e3000 ∷ 0x0e4000 ∷ 0x0e5000 ∷ 0x0e6000 ∷ 0x0e7000 ∷ 0x0e8000
    ∷ 0x0e9000 ∷ 0x0ea000 ∷ 0x0eb000 ∷ 0x0ec000 ∷ 0x0ed000 ∷ 0x0ee000 ∷ 0x0ef000 ∷ 0x0f0000
    ∷ 0x0f1000 ∷ 0x0f2000 ∷ 0x0f3000 ∷ 0x0f4000 ∷ 0x0f5000 ∷ 0x0f6000 ∷ 0x0f7000 ∷ 0x0f8000
    ∷ 0x0f9000 ∷ 0x0fa000 ∷ 0x0fb000 ∷ 0x0fc000 ∷ 0x0fd000 ∷ 0x0fe000 ∷ 0x0ff000 ∷ []

unfoldable pub entries_2 : List ℕ
entries_2 =
    0x100000 ∷ 0x101000 ∷ 0x102000 ∷ 0x103000 ∷ 0x104000 ∷ 0x105000 ∷ 0x106000 ∷ 0x107000 ∷ 0x108000
    ∷ 0x109000 ∷ 0x10a000 ∷ 0x10b000 ∷ 0x10c000 ∷ 0x10d000 ∷ 0x10e000 ∷ 0x10f000 ∷ 0x110000
    ∷ 0x111000 ∷ 0x112000 ∷ 0x113000 ∷ 0x114000 ∷ 0x115000 ∷ 0x116000 ∷ 0x117000 ∷ 0x118000
    ∷ 0x119000 ∷ 0x11a000 ∷ 0x11b000 ∷ 0x11c000 ∷ 0x11d000 ∷ 0x11e000 ∷ 0x11f000 ∷ 0x120000
    ∷ 0x121000 ∷ 0x122000 ∷ 0x123000 ∷ 0x124000 ∷ 0x125000 ∷ 0x126000 ∷ 0x127000 ∷ 0x128000
    ∷ 0x129000 ∷ 0x12a000 ∷ 0x12b000 ∷ 0x12c000 ∷ 0x12d000 ∷ 0x12e000 ∷ 0x12f000 ∷ 0x130000
    ∷ 0x131000 ∷ 0x132000 ∷ 0x133000 ∷ 0x134000 ∷ 0x135000 ∷ 0x136000 ∷ 0x137000 ∷ 0x138000
    ∷ 0x139000 ∷ 0x13a000 ∷ 0x13b000 ∷ 0x13c000 ∷ 0x13d000 ∷ 0x13e000 ∷ 0x13f000 ∷ 0x140000
    ∷ 0x141000 ∷ 0x142000 ∷ 0x143000 ∷ 0x144000 ∷ 0x145000 ∷ 0x146000 ∷ 0x147000 ∷ 0x148000
    ∷ 0x149000 ∷ 0x14a000 ∷ 0x14b000 ∷ 0x14c000 ∷ 0x14d000 ∷ 0x14e000 ∷ 0x14f000 ∷ 0x150000
    ∷ 0x151000 ∷ 0x152000 ∷ 0x153000 ∷ 0x154000 ∷ 0x155000 ∷ 0x156000 ∷ 0x157000 ∷ 0x158000
    ∷ 0x159000 ∷ 0x15a000 ∷ 0x15b000 ∷ 0x15c000 ∷ 0x15d000 ∷ 0x15e000 ∷ 0x15f000 ∷ 0x160000
    ∷ 0x161000 ∷ 0x162000 ∷ 0x163000 ∷ 0x164000 ∷ 0x165000 ∷ 0x166000 ∷ 0x167000 ∷ 0x168000
    ∷ 0x169000 ∷ 0x16a000 ∷ 0x16b000 ∷ 0x16c000 ∷ 0x16d000 ∷ 0x16e000 ∷ 0x16f000 ∷ 0x170000
    ∷ 0x171000 ∷ 0x172000 ∷ 0x173000 ∷ 0x174000 ∷ 0x175000 ∷ 0x176000 ∷ 0x177000 ∷ 0x178000
    ∷ 0x179000 ∷ 0x17a000 ∷ 0x17b000 ∷ 0x17c000 ∷ 0x17d000 ∷ 0x17e000 ∷ 0x17f000 ∷ []

unfoldable pub entries_3 : List ℕ
entries_3 =
    0x180000 ∷ 0x181000 ∷ 0x182000 ∷ 0x183000 ∷ 0x184000 ∷ 0x185000 ∷ 0x186000 ∷ 0x187000 ∷ 0x188000
    ∷ 0x189000 ∷ 0x18a000 ∷ 0x18b000 ∷ 0x18c000 ∷ 0x18d000 ∷ 0x18e000 ∷ 0x18f000 ∷ 0x190000
    ∷ 0x191000 ∷ 0x192000 ∷ 0x193000 ∷ 0x194000 ∷ 0x195000 ∷ 0x196000 ∷ 0x197000 ∷ 0x198000
    ∷ 0x199000 ∷ 0x19a000 ∷ 0x19b000 ∷ 0x19c000 ∷ 0x19d000 ∷ 0x19e000 ∷ 0x19f000 ∷ 0x1a0000
    ∷ 0x1a1000 ∷ 0x1a2000 ∷ 0x1a3000 ∷ 0x1a4000 ∷ 0x1a5000 ∷ 0x1a6000 ∷ 0x1a7000 ∷ 0x1a8000
    ∷ 0x1a9000 ∷ 0x1aa000 ∷ 0x1ab000 ∷ 0x1ac000 ∷ 0x1ad000 ∷ 0x1ae000 ∷ 0x1af000 ∷ 0x1b0000
    ∷ 0x1b1000 ∷ 0x1b2000 ∷ 0x1b3000 ∷ 0x1b4000 ∷ 0x1b5000 ∷ 0x1b6000 ∷ 0x1b7000 ∷ 0x1b8000
    ∷ 0x1b9000 ∷ 0x1ba000 ∷ 0x1bb000 ∷ 0x1bc000 ∷ 0x1bd000 ∷ 0x1be000 ∷ 0x1bf000 ∷ 0x1c0000
    ∷ 0x1c1000 ∷ 0x1c2000 ∷ 0x1c3000 ∷ 0x1c4000 ∷ 0x1c5000 ∷ 0x1c6000 ∷ 0x1c7000 ∷ 0x1c8000
    ∷ 0x1c9000 ∷ 0x1ca000 ∷ 0x1cb000 ∷ 0x1cc000 ∷ 0x1cd000 ∷ 0x1ce000 ∷ 0x1cf000 ∷ 0x1d0000
    ∷ 0x1d1000 ∷ 0x1d2000 ∷ 0x1d3000 ∷ 0x1d4000 ∷ 0x1d5000 ∷ 0x1d6000 ∷ 0x1d7000 ∷ 0x1d8000
    ∷ 0x1d9000 ∷ 0x1da000 ∷ 0x1db000 ∷ 0x1dc000 ∷ 0x1dd000 ∷ 0x1de000 ∷ 0x1df000 ∷ 0x1e0000
    ∷ 0x1e1000 ∷ 0x1e2000 ∷ 0x1e3000 ∷ 0x1e4000 ∷ 0x1e5000 ∷ 0x1e6000 ∷ 0x1e7000 ∷ 0x1e8000
    ∷ 0x1e9000 ∷ 0x1ea000 ∷ 0x1eb000 ∷ 0x1ec000 ∷ 0x1ed000 ∷ 0x1ee000 ∷ 0x1ef000 ∷ 0x1f0000
    ∷ 0x1f1000 ∷ 0x1f2000 ∷ 0x1f3000 ∷ 0x1f4000 ∷ 0x1f5000 ∷ 0x1f6000 ∷ 0x1f7000 ∷ 0x1f8000
    ∷ 0x1f9000 ∷ 0x1fa000 ∷ 0x1fb000 ∷ 0x1fc000 ∷ 0x1fd000 ∷ 0x1fe000 ∷ 0x1ff000 ∷ []
