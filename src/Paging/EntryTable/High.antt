-- ===== src/Paging/EntryTable/High.antt =====
-- kern/entrypgdir.c: the frame addresses of `entry_pgtable`, entries 512 to 1023, in the order of the
-- source, which gives each the flags PTE_P and PTE_W.
use tp_prom.Prelude.{ℕ, List, [], ◌∷◌}

unfoldable pub entries_4 : List ℕ
entries_4 =
    0x200000 ∷ 0x201000 ∷ 0x202000 ∷ 0x203000 ∷ 0x204000 ∷ 0x205000 ∷ 0x206000 ∷ 0x207000 ∷ 0x208000
    ∷ 0x209000 ∷ 0x20a000 ∷ 0x20b000 ∷ 0x20c000 ∷ 0x20d000 ∷ 0x20e000 ∷ 0x20f000 ∷ 0x210000
    ∷ 0x211000 ∷ 0x212000 ∷ 0x213000 ∷ 0x214000 ∷ 0x215000 ∷ 0x216000 ∷ 0x217000 ∷ 0x218000
    ∷ 0x219000 ∷ 0x21a000 ∷ 0x21b000 ∷ 0x21c000 ∷ 0x21d000 ∷ 0x21e000 ∷ 0x21f000 ∷ 0x220000
    ∷ 0x221000 ∷ 0x222000 ∷ 0x223000 ∷ 0x224000 ∷ 0x225000 ∷ 0x226000 ∷ 0x227000 ∷ 0x228000
    ∷ 0x229000 ∷ 0x22a000 ∷ 0x22b000 ∷ 0x22c000 ∷ 0x22d000 ∷ 0x22e000 ∷ 0x22f000 ∷ 0x230000
    ∷ 0x231000 ∷ 0x232000 ∷ 0x233000 ∷ 0x234000 ∷ 0x235000 ∷ 0x236000 ∷ 0x237000 ∷ 0x238000
    ∷ 0x239000 ∷ 0x23a000 ∷ 0x23b000 ∷ 0x23c000 ∷ 0x23d000 ∷ 0x23e000 ∷ 0x23f000 ∷ 0x240000
    ∷ 0x241000 ∷ 0x242000 ∷ 0x243000 ∷ 0x244000 ∷ 0x245000 ∷ 0x246000 ∷ 0x247000 ∷ 0x248000
    ∷ 0x249000 ∷ 0x24a000 ∷ 0x24b000 ∷ 0x24c000 ∷ 0x24d000 ∷ 0x24e000 ∷ 0x24f000 ∷ 0x250000
    ∷ 0x251000 ∷ 0x252000 ∷ 0x253000 ∷ 0x254000 ∷ 0x255000 ∷ 0x256000 ∷ 0x257000 ∷ 0x258000
    ∷ 0x259000 ∷ 0x25a000 ∷ 0x25b000 ∷ 0x25c000 ∷ 0x25d000 ∷ 0x25e000 ∷ 0x25f000 ∷ 0x260000
    ∷ 0x261000 ∷ 0x262000 ∷ 0x263000 ∷ 0x264000 ∷ 0x265000 ∷ 0x266000 ∷ 0x267000 ∷ 0x268000
    ∷ 0x269000 ∷ 0x26a000 ∷ 0x26b000 ∷ 0x26c000 ∷ 0x26d000 ∷ 0x26e000 ∷ 0x26f000 ∷ 0x270000
    ∷ 0x271000 ∷ 0x272000 ∷ 0x273000 ∷ 0x274000 ∷ 0x275000 ∷ 0x276000 ∷ 0x277000 ∷ 0x278000
    ∷ 0x279000 ∷ 0x27a000 ∷ 0x27b000 ∷ 0x27c000 ∷ 0x27d000 ∷ 0x27e000 ∷ 0x27f000 ∷ []

unfoldable pub entries_5 : List ℕ
entries_5 =
    0x280000 ∷ 0x281000 ∷ 0x282000 ∷ 0x283000 ∷ 0x284000 ∷ 0x285000 ∷ 0x286000 ∷ 0x287000 ∷ 0x288000
    ∷ 0x289000 ∷ 0x28a000 ∷ 0x28b000 ∷ 0x28c000 ∷ 0x28d000 ∷ 0x28e000 ∷ 0x28f000 ∷ 0x290000
    ∷ 0x291000 ∷ 0x292000 ∷ 0x293000 ∷ 0x294000 ∷ 0x295000 ∷ 0x296000 ∷ 0x297000 ∷ 0x298000
    ∷ 0x299000 ∷ 0x29a000 ∷ 0x29b000 ∷ 0x29c000 ∷ 0x29d000 ∷ 0x29e000 ∷ 0x29f000 ∷ 0x2a0000
    ∷ 0x2a1000 ∷ 0x2a2000 ∷ 0x2a3000 ∷ 0x2a4000 ∷ 0x2a5000 ∷ 0x2a6000 ∷ 0x2a7000 ∷ 0x2a8000
    ∷ 0x2a9000 ∷ 0x2aa000 ∷ 0x2ab000 ∷ 0x2ac000 ∷ 0x2ad000 ∷ 0x2ae000 ∷ 0x2af000 ∷ 0x2b0000
    ∷ 0x2b1000 ∷ 0x2b2000 ∷ 0x2b3000 ∷ 0x2b4000 ∷ 0x2b5000 ∷ 0x2b6000 ∷ 0x2b7000 ∷ 0x2b8000
    ∷ 0x2b9000 ∷ 0x2ba000 ∷ 0x2bb000 ∷ 0x2bc000 ∷ 0x2bd000 ∷ 0x2be000 ∷ 0x2bf000 ∷ 0x2c0000
    ∷ 0x2c1000 ∷ 0x2c2000 ∷ 0x2c3000 ∷ 0x2c4000 ∷ 0x2c5000 ∷ 0x2c6000 ∷ 0x2c7000 ∷ 0x2c8000
    ∷ 0x2c9000 ∷ 0x2ca000 ∷ 0x2cb000 ∷ 0x2cc000 ∷ 0x2cd000 ∷ 0x2ce000 ∷ 0x2cf000 ∷ 0x2d0000
    ∷ 0x2d1000 ∷ 0x2d2000 ∷ 0x2d3000 ∷ 0x2d4000 ∷ 0x2d5000 ∷ 0x2d6000 ∷ 0x2d7000 ∷ 0x2d8000
    ∷ 0x2d9000 ∷ 0x2da000 ∷ 0x2db000 ∷ 0x2dc000 ∷ 0x2dd000 ∷ 0x2de000 ∷ 0x2df000 ∷ 0x2e0000
    ∷ 0x2e1000 ∷ 0x2e2000 ∷ 0x2e3000 ∷ 0x2e4000 ∷ 0x2e5000 ∷ 0x2e6000 ∷ 0x2e7000 ∷ 0x2e8000
    ∷ 0x2e9000 ∷ 0x2ea000 ∷ 0x2eb000 ∷ 0x2ec000 ∷ 0x2ed000 ∷ 0x2ee000 ∷ 0x2ef000 ∷ 0x2f0000
    ∷ 0x2f1000 ∷ 0x2f2000 ∷ 0x2f3000 ∷ 0x2f4000 ∷ 0x2f5000 ∷ 0x2f6000 ∷ 0x2f7000 ∷ 0x2f8000
    ∷ 0x2f9000 ∷ 0x2fa000 ∷ 0x2fb000 ∷ 0x2fc000 ∷ 0x2fd000 ∷ 0x2fe000 ∷ 0x2ff000 ∷ []

unfoldable pub entries_6 : List ℕ
entries_6 =
    0x300000 ∷ 0x301000 ∷ 0x302000 ∷ 0x303000 ∷ 0x304000 ∷ 0x305000 ∷ 0x306000 ∷ 0x307000 ∷ 0x308000
    ∷ 0x309000 ∷ 0x30a000 ∷ 0x30b000 ∷ 0x30c000 ∷ 0x30d000 ∷ 0x30e000 ∷ 0x30f000 ∷ 0x310000
    ∷ 0x311000 ∷ 0x312000 ∷ 0x313000 ∷ 0x314000 ∷ 0x315000 ∷ 0x316000 ∷ 0x317000 ∷ 0x318000
    ∷ 0x319000 ∷ 0x31a000 ∷ 0x31b000 ∷ 0x31c000 ∷ 0x31d000 ∷ 0x31e000 ∷ 0x31f000 ∷ 0x320000
    ∷ 0x321000 ∷ 0x322000 ∷ 0x323000 ∷ 0x324000 ∷ 0x325000 ∷ 0x326000 ∷ 0x327000 ∷ 0x328000
    ∷ 0x329000 ∷ 0x32a000 ∷ 0x32b000 ∷ 0x32c000 ∷ 0x32d000 ∷ 0x32e000 ∷ 0x32f000 ∷ 0x330000
    ∷ 0x331000 ∷ 0x332000 ∷ 0x333000 ∷ 0x334000 ∷ 0x335000 ∷ 0x336000 ∷ 0x337000 ∷ 0x338000
    ∷ 0x339000 ∷ 0x33a000 ∷ 0x33b000 ∷ 0x33c000 ∷ 0x33d000 ∷ 0x33e000 ∷ 0x33f000 ∷ 0x340000
    ∷ 0x341000 ∷ 0x342000 ∷ 0x343000 ∷ 0x344000 ∷ 0x345000 ∷ 0x346000 ∷ 0x347000 ∷ 0x348000
    ∷ 0x349000 ∷ 0x34a000 ∷ 0x34b000 ∷ 0x34c000 ∷ 0x34d000 ∷ 0x34e000 ∷ 0x34f000 ∷ 0x350000
    ∷ 0x351000 ∷ 0x352000 ∷ 0x353000 ∷ 0x354000 ∷ 0x355000 ∷ 0x356000 ∷ 0x357000 ∷ 0x358000
    ∷ 0x359000 ∷ 0x35a000 ∷ 0x35b000 ∷ 0x35c000 ∷ 0x35d000 ∷ 0x35e000 ∷ 0x35f000 ∷ 0x360000
    ∷ 0x361000 ∷ 0x362000 ∷ 0x363000 ∷ 0x364000 ∷ 0x365000 ∷ 0x366000 ∷ 0x367000 ∷ 0x368000
    ∷ 0x369000 ∷ 0x36a000 ∷ 0x36b000 ∷ 0x36c000 ∷ 0x36d000 ∷ 0x36e000 ∷ 0x36f000 ∷ 0x370000
    ∷ 0x371000 ∷ 0x372000 ∷ 0x373000 ∷ 0x374000 ∷ 0x375000 ∷ 0x376000 ∷ 0x377000 ∷ 0x378000
    ∷ 0x379000 ∷ 0x37a000 ∷ 0x37b000 ∷ 0x37c000 ∷ 0x37d000 ∷ 0x37e000 ∷ 0x37f000 ∷ []

unfoldable pub entries_7 : List ℕ
entries_7 =
    0x380000 ∷ 0x381000 ∷ 0x382000 ∷ 0x383000 ∷ 0x384000 ∷ 0x385000 ∷ 0x386000 ∷ 0x387000 ∷ 0x388000
    ∷ 0x389000 ∷ 0x38a000 ∷ 0x38b000 ∷ 0x38c000 ∷ 0x38d000 ∷ 0x38e000 ∷ 0x38f000 ∷ 0x390000
    ∷ 0x391000 ∷ 0x392000 ∷ 0x393000 ∷ 0x394000 ∷ 0x395000 ∷ 0x396000 ∷ 0x397000 ∷ 0x398000
    ∷ 0x399000 ∷ 0x39a000 ∷ 0x39b000 ∷ 0x39c000 ∷ 0x39d000 ∷ 0x39e000 ∷ 0x39f000 ∷ 0x3a0000
    ∷ 0x3a1000 ∷ 0x3a2000 ∷ 0x3a3000 ∷ 0x3a4000 ∷ 0x3a5000 ∷ 0x3a6000 ∷ 0x3a7000 ∷ 0x3a8000
    ∷ 0x3a9000 ∷ 0x3aa000 ∷ 0x3ab000 ∷ 0x3ac000 ∷ 0x3ad000 ∷ 0x3ae000 ∷ 0x3af000 ∷ 0x3b0000
    ∷ 0x3b1000 ∷ 0x3b2000 ∷ 0x3b3000 ∷ 0x3b4000 ∷ 0x3b5000 ∷ 0x3b6000 ∷ 0x3b7000 ∷ 0x3b8000
    ∷ 0x3b9000 ∷ 0x3ba000 ∷ 0x3bb000 ∷ 0x3bc000 ∷ 0x3bd000 ∷ 0x3be000 ∷ 0x3bf000 ∷ 0x3c0000
    ∷ 0x3c1000 ∷ 0x3c2000 ∷ 0x3c3000 ∷ 0x3c4000 ∷ 0x3c5000 ∷ 0x3c6000 ∷ 0x3c7000 ∷ 0x3c8000
    ∷ 0x3c9000 ∷ 0x3ca000 ∷ 0x3cb000 ∷ 0x3cc000 ∷ 0x3cd000 ∷ 0x3ce000 ∷ 0x3cf000 ∷ 0x3d0000
    ∷ 0x3d1000 ∷ 0x3d2000 ∷ 0x3d3000 ∷ 0x3d4000 ∷ 0x3d5000 ∷ 0x3d6000 ∷ 0x3d7000 ∷ 0x3d8000
    ∷ 0x3d9000 ∷ 0x3da000 ∷ 0x3db000 ∷ 0x3dc000 ∷ 0x3dd000 ∷ 0x3de000 ∷ 0x3df000 ∷ 0x3e0000
    ∷ 0x3e1000 ∷ 0x3e2000 ∷ 0x3e3000 ∷ 0x3e4000 ∷ 0x3e5000 ∷ 0x3e6000 ∷ 0x3e7000 ∷ 0x3e8000
    ∷ 0x3e9000 ∷ 0x3ea000 ∷ 0x3eb000 ∷ 0x3ec000 ∷ 0x3ed000 ∷ 0x3ee000 ∷ 0x3ef000 ∷ 0x3f0000
    ∷ 0x3f1000 ∷ 0x3f2000 ∷ 0x3f3000 ∷ 0x3f4000 ∷ 0x3f5000 ∷ 0x3f6000 ∷ 0x3f7000 ∷ 0x3f8000
    ∷ 0x3f9000 ∷ 0x3fa000 ∷ 0x3fb000 ∷ 0x3fc000 ∷ 0x3fd000 ∷ 0x3fe000 ∷ 0x3ff000 ∷ []
