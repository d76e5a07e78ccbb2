-- ===== src/Dvb.antt =====
-- dvb/si/: numbers and times of the tables of DVB service information.
pub mod Numbers
pub mod DateTime
pub mod S2
