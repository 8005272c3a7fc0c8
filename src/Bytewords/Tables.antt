-- ===== src/Bytewords/Tables.antt =====
-- The two tables of src/bytewords.c.
use c_ur.Base.{ℕ, List, [], ◌∷◌}
use Prim.Native.Char.{code}
use Prim.Native.String.{String}

abbrev pub codes : String → List ℕ
codes String.[] = []
codes (String.◌∷◌ c s) = code c ∷ codes s

-- bytewords_minimal: the first and the last letter of each of the 256 words.
unfoldable pub bytewords_minimal : List ℕ
bytewords_minimal =
    codes
      "AEADAOAXAAAHAMATAYASBKBDBNBTBABSBEBYBGBWBBBZCMCHCSCFCYCWCECACKCTCXCLCPCNDKDADSDIDEDTDRDNDWDPDMDLDYEHEYEOEEECENEMETESFTFRFNFSFMFHFZFPFWFXFYFEFGFLFDGAGEGRGSGTGLGWGDGYGMGUGHGOHFHGHDHKHTHPHHHLHYHEHNHSIDIAIEIHIYIOISINIMJEJZJNJTJLJOJSJPJKJYKPKOKTKSKKKNKGKEKIKBLBLALYLFLSLRLPLNLTLOLDLELULKLGMNMYMHMEMOMUMWMDMTMSMKNLNYNDNSNTNNNENBOYOEOTOXONOLOSPDPTPKPYPSPMPLPEPFPAPRQDQZRERPRLRORHRDRKRFRYRNRSRTSESASRSSSKSWSTSPSOSGSBSFSNTOTKTITTTDTETYTLTBTSTPTATNUYUOUTUEURVTVYVOVLVEVWVAVDVSWLWDWMWPWEWYWSWTWNWZWFWKYKYNYLYAYTZSZOZTZCZEZM"

-- The bit pattern of (int16_t)-1.
abbrev pub no_word : ℕ
no_word = 65535

-- lookup_table, by the last letter and then the first one.
unfoldable pub lookup_table : List ℕ
lookup_table =
    4 ∷ 14 ∷ 29 ∷ 37 ∷ no_word ∷ no_word ∷ 73 ∷ no_word ∷ 99 ∷ no_word ∷ no_word ∷ 128 ∷ no_word
    ∷ no_word ∷ no_word ∷ 177 ∷ no_word ∷ no_word ∷ 194 ∷ 217 ∷ no_word ∷ 230 ∷ no_word ∷ no_word
    ∷ 248 ∷ no_word ∷ no_word ∷ 20 ∷ no_word ∷ no_word ∷ no_word ∷ no_word ∷ no_word ∷ no_word
    ∷ no_word ∷ no_word ∷ 126 ∷ 127 ∷ no_word ∷ 160 ∷ no_word ∷ no_word ∷ no_word ∷ no_word ∷ 203
    ∷ 214 ∷ no_word ∷ no_word ∷ no_word ∷ no_word ∷ no_word ∷ no_word ∷ no_word ∷ no_word ∷ no_word
    ∷ no_word ∷ 53 ∷ no_word ∷ no_word ∷ no_word ∷ no_word ∷ no_word ∷ no_word ∷ no_word ∷ no_word
    ∷ no_word ∷ no_word ∷ no_word ∷ no_word ∷ no_word ∷ no_word ∷ no_word ∷ no_word ∷ no_word
    ∷ no_word ∷ no_word ∷ no_word ∷ 253 ∷ 1 ∷ 11 ∷ no_word ∷ no_word ∷ no_word ∷ 72 ∷ 80 ∷ 88 ∷ 98
    ∷ no_word ∷ no_word ∷ 137 ∷ 149 ∷ 155 ∷ no_word ∷ 168 ∷ 179 ∷ 186 ∷ no_word ∷ 210 ∷ no_word
    ∷ 231 ∷ 234 ∷ no_word ∷ no_word ∷ no_word ∷ 0 ∷ 16 ∷ 28 ∷ 40 ∷ 52 ∷ 69 ∷ 74 ∷ 95 ∷ 100 ∷ 107
    ∷ 124 ∷ 138 ∷ 145 ∷ 159 ∷ 162 ∷ 175 ∷ no_word ∷ 181 ∷ 193 ∷ 211 ∷ 222 ∷ 228 ∷ 237 ∷ no_word
    ∷ no_word ∷ 254 ∷ no_word ∷ no_word ∷ 25 ∷ no_word ∷ no_word ∷ no_word ∷ no_word ∷ 86 ∷ no_word
    ∷ no_word ∷ no_word ∷ 130 ∷ no_word ∷ no_word ∷ no_word ∷ 176 ∷ no_word ∷ 188 ∷ 204 ∷ no_word
    ∷ no_word ∷ no_word ∷ 243 ∷ no_word ∷ no_word ∷ no_word ∷ no_word ∷ 18 ∷ no_word ∷ no_word
    ∷ no_word ∷ 70 ∷ no_word ∷ 87 ∷ no_word ∷ no_word ∷ 123 ∷ 141 ∷ no_word ∷ no_word ∷ no_word
    ∷ no_word ∷ no_word ∷ no_word ∷ 202 ∷ no_word ∷ no_word ∷ no_word ∷ no_word ∷ no_word ∷ no_word
    ∷ no_word ∷ 5 ∷ no_word ∷ 23 ∷ no_word ∷ 49 ∷ 63 ∷ 84 ∷ 92 ∷ 101 ∷ no_word ∷ no_word ∷ no_word
    ∷ 144 ∷ no_word ∷ no_word ∷ no_word ∷ no_word ∷ 185 ∷ no_word ∷ no_word ∷ no_word ∷ no_word
    ∷ no_word ∷ no_word ∷ no_word ∷ no_word ∷ no_word ∷ no_word ∷ no_word ∷ 39 ∷ no_word ∷ no_word
    ∷ no_word ∷ no_word ∷ no_word ∷ no_word ∷ 125 ∷ no_word ∷ no_word ∷ no_word ∷ no_word ∷ no_word
    ∷ no_word ∷ no_word ∷ no_word ∷ 208 ∷ no_word ∷ no_word ∷ no_word ∷ no_word ∷ no_word ∷ no_word
    ∷ no_word ∷ no_word ∷ no_word ∷ no_word ∷ no_word ∷ no_word ∷ no_word ∷ no_word ∷ no_word
    ∷ no_word ∷ no_word ∷ no_word ∷ no_word ∷ no_word ∷ no_word ∷ no_word ∷ no_word ∷ no_word
    ∷ no_word ∷ no_word ∷ no_word ∷ no_word ∷ no_word ∷ no_word ∷ no_word ∷ no_word ∷ no_word ∷ 10
    ∷ 30 ∷ 36 ∷ no_word ∷ no_word ∷ no_word ∷ 89 ∷ no_word ∷ 115 ∷ 121 ∷ 140 ∷ 152 ∷ no_word
    ∷ no_word ∷ 170 ∷ no_word ∷ 187 ∷ 197 ∷ 207 ∷ no_word ∷ no_word ∷ 244 ∷ no_word ∷ 245 ∷ no_word
    ∷ no_word ∷ no_word ∷ 33 ∷ 47 ∷ no_word ∷ 71 ∷ 78 ∷ 93 ∷ no_word ∷ 111 ∷ no_word ∷ no_word
    ∷ no_word ∷ 153 ∷ 166 ∷ 174 ∷ no_word ∷ 183 ∷ no_word ∷ 213 ∷ no_word ∷ 227 ∷ 233 ∷ no_word
    ∷ 247 ∷ no_word ∷ 6 ∷ no_word ∷ 22 ∷ 46 ∷ 55 ∷ 62 ∷ 82 ∷ no_word ∷ 106 ∷ no_word ∷ no_word
    ∷ no_word ∷ no_word ∷ no_word ∷ no_word ∷ 173 ∷ no_word ∷ no_word ∷ no_word ∷ no_word ∷ no_word
    ∷ no_word ∷ 235 ∷ no_word ∷ no_word ∷ 255 ∷ no_word ∷ 12 ∷ 35 ∷ 43 ∷ 54 ∷ 60 ∷ no_word ∷ 96
    ∷ 105 ∷ 109 ∷ 122 ∷ 134 ∷ 142 ∷ 158 ∷ 165 ∷ no_word ∷ no_word ∷ 190 ∷ 205 ∷ 218 ∷ no_word
    ∷ no_word ∷ 241 ∷ no_word ∷ 246 ∷ no_word ∷ 2 ∷ no_word ∷ no_word ∷ no_word ∷ 51 ∷ no_word ∷ 85
    ∷ no_word ∷ 103 ∷ 112 ∷ 118 ∷ 136 ∷ 146 ∷ no_word ∷ no_word ∷ no_word ∷ no_word ∷ 184 ∷ 201
    ∷ 206 ∷ 220 ∷ 226 ∷ no_word ∷ no_word ∷ no_word ∷ 251 ∷ no_word ∷ no_word ∷ 34 ∷ 45 ∷ no_word
    ∷ 65 ∷ no_word ∷ 91 ∷ no_word ∷ 114 ∷ 117 ∷ 133 ∷ no_word ∷ no_word ∷ no_word ∷ no_word
    ∷ no_word ∷ 182 ∷ 200 ∷ 216 ∷ no_word ∷ no_word ∷ 236 ∷ no_word ∷ no_word ∷ no_word ∷ no_word
    ∷ no_word ∷ no_word ∷ no_word ∷ no_word ∷ no_word ∷ no_word ∷ no_word ∷ no_word ∷ no_word
    ∷ no_word ∷ no_word ∷ no_word ∷ no_word ∷ no_word ∷ no_word ∷ no_word ∷ no_word ∷ no_word
    ∷ no_word ∷ no_word ∷ no_word ∷ no_word ∷ no_word ∷ no_word ∷ no_word ∷ no_word ∷ no_word
    ∷ no_word ∷ 42 ∷ no_word ∷ 59 ∷ 75 ∷ no_word ∷ no_word ∷ no_word ∷ no_word ∷ 132 ∷ no_word
    ∷ no_word ∷ no_word ∷ 178 ∷ no_word ∷ no_word ∷ 195 ∷ no_word ∷ 223 ∷ no_word ∷ no_word
    ∷ no_word ∷ no_word ∷ no_word ∷ 9 ∷ 15 ∷ 24 ∷ 38 ∷ 57 ∷ 61 ∷ 76 ∷ 97 ∷ 104 ∷ 113 ∷ 120 ∷ 131
    ∷ 151 ∷ 156 ∷ 167 ∷ 172 ∷ no_word ∷ 191 ∷ 196 ∷ 215 ∷ no_word ∷ 232 ∷ 239 ∷ no_word ∷ no_word
    ∷ 250 ∷ 7 ∷ 13 ∷ 31 ∷ 41 ∷ 56 ∷ 58 ∷ 77 ∷ 90 ∷ no_word ∷ 110 ∷ 119 ∷ 135 ∷ 150 ∷ 157 ∷ 163 ∷ 169
    ∷ no_word ∷ 192 ∷ 199 ∷ 209 ∷ 221 ∷ 224 ∷ 240 ∷ no_word ∷ 249 ∷ 252 ∷ no_word ∷ no_word
    ∷ no_word ∷ no_word ∷ no_word ∷ no_word ∷ 83 ∷ no_word ∷ no_word ∷ no_word ∷ no_word ∷ 139 ∷ 147
    ∷ no_word ∷ no_word ∷ no_word ∷ no_word ∷ no_word ∷ no_word ∷ no_word ∷ no_word ∷ no_word
    ∷ no_word ∷ no_word ∷ no_word ∷ no_word ∷ no_word ∷ no_word ∷ no_word ∷ no_word ∷ no_word
    ∷ no_word ∷ no_word ∷ no_word ∷ no_word ∷ no_word ∷ no_word ∷ no_word ∷ no_word ∷ no_word
    ∷ no_word ∷ no_word ∷ no_word ∷ no_word ∷ no_word ∷ no_word ∷ no_word ∷ no_word ∷ no_word
    ∷ no_word ∷ no_word ∷ no_word ∷ no_word ∷ 19 ∷ 27 ∷ 44 ∷ no_word ∷ 66 ∷ 79 ∷ no_word ∷ no_word
    ∷ no_word ∷ no_word ∷ no_word ∷ 148 ∷ no_word ∷ no_word ∷ no_word ∷ no_word ∷ no_word ∷ 198
    ∷ no_word ∷ no_word ∷ 229 ∷ no_word ∷ no_word ∷ no_word ∷ no_word ∷ 3 ∷ no_word ∷ 32 ∷ no_word
    ∷ no_word ∷ 67 ∷ no_word ∷ no_word ∷ no_word ∷ no_word ∷ no_word ∷ no_word ∷ no_word ∷ no_word
    ∷ 164 ∷ no_word ∷ no_word ∷ no_word ∷ no_word ∷ no_word ∷ no_word ∷ no_word ∷ no_word ∷ no_word
    ∷ no_word ∷ no_word ∷ 8 ∷ 17 ∷ 26 ∷ 48 ∷ 50 ∷ 68 ∷ 81 ∷ 94 ∷ 102 ∷ 116 ∷ no_word ∷ 129 ∷ 143
    ∷ 154 ∷ 161 ∷ 171 ∷ no_word ∷ 189 ∷ no_word ∷ 212 ∷ 219 ∷ 225 ∷ 238 ∷ no_word ∷ no_word
    ∷ no_word ∷ no_word ∷ 21 ∷ no_word ∷ no_word ∷ no_word ∷ 64 ∷ no_word ∷ no_word ∷ no_word ∷ 108
    ∷ no_word ∷ no_word ∷ no_word ∷ no_word ∷ no_word ∷ no_word ∷ 180 ∷ no_word ∷ no_word ∷ no_word
    ∷ no_word ∷ no_word ∷ 242 ∷ no_word ∷ no_word ∷ no_word ∷ []
